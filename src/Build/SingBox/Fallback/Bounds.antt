-- ===== src/Build/SingBox/Fallback/Bounds.antt =====
-- Every fallback that is accepted has a server and a port.
use xboard_node_plus.Prelude.{
  ◌≡◌, ◌≢◌, ℕ, ◌≤◌, Str, List, [], ◌∷◌, Option, none, some, Map, str_beq, Option-cases, Bool-cases,
  inl, inr, arith, trim_space, atoi, split, str_eq, lookup, codes, nat_beq, is_pos, not, ◌||◌, ltb,
}
use xboard_node_plus.Model.Values.{Any, arr, obj, text, float, int, bool, null}
use mathlib.Core.Path.{subst}
use xboard_node_plus.Model.{NodeSpec}
use xboard_node_plus.Build.Atoi.{pattern_of}
use xboard_node_plus.Build.Library.{Library}
use xboard_node_plus.Build.SingBox.Fallback.{
  Target, make_trojan_fallback, with_port, two_parts, split_address, parse_trojan_fallback_address,
  server_and_port, normalize_trojan_fallback_map, normalize_trojan_fallback, from_settings,
  build_trojan_fallback,
}

-- What is asked of a fallback, if there is one.
abbrev IsTarget : Option Target → Type 0
IsTarget none = Unit
IsTarget (some t) = (t.server ≢ []) × (1 ≤ t.server_port) × (t.server_port ≤ 65535)

make-IsTarget : (server : Str) (port : ℕ) → IsTarget (make_trojan_fallback server port)
unfolding make_trojan_fallback str_beq
make-IsTarget server port =
    elim (Bool-cases (str_beq (trim_space server) [] || not (is_pos port) || ltb 65535 port)) [
      | inl refused ↦ rw refused tt
      | inr accepted ↦
          rw accepted (
            λ e. absurd (cc (rw e at accepted)),
            ground (arith, accepted),
            ground (arith, accepted),
          )
    ]

with_port-IsTarget : (port host : Str) → IsTarget (with_port port host)
with_port-IsTarget port host = elim (Option-cases (atoi (trim_space port))) [
  | inl bad ↦ rw (bad, IsTarget) tt
  | inr (n, read) ↦ rw (read, IsTarget) (make-IsTarget host (pattern_of n))
]

two_parts-IsTarget : (l : List Str) → IsTarget (two_parts l)
two_parts-IsTarget [] = tt
two_parts-IsTarget (h ∷ []) = tt
two_parts-IsTarget (h ∷ p ∷ []) = with_port-IsTarget p h
two_parts-IsTarget (h ∷ p ∷ m ∷ l) = tt

split_address-IsTarget : (o : Option (Str × Str)) (addr : Str) → IsTarget (split_address o addr)
split_address-IsTarget none addr = two_parts-IsTarget (split b':' addr)
split_address-IsTarget (some (host, port)) addr = with_port-IsTarget port host

module _ (lib : Library) where
  parse-IsTarget : (addr : Str) → IsTarget (parse_trojan_fallback_address lib addr)
  unfolding parse_trojan_fallback_address
  parse-IsTarget addr = elim (Bool-cases (str_beq (trim_space addr) [])) [
    | inl blank ↦ rw blank tt
    | inr given ↦
        rw given (split_address-IsTarget (lib.split_host_port (trim_space addr)) (trim_space addr))
  ]

  server_and_port-IsTarget : (server : Str) (port : ℕ) → IsTarget (server_and_port lib server port)
  server_and_port-IsTarget server port = elim (Bool-cases (str_beq server [])) [
    | inl blank ↦ rw blank tt
    | inr given ↦ rw given (elim (Bool-cases (nat_beq port 0)) [
      | inl zero_port ↦ rw zero_port (parse-IsTarget server)
      | inr other ↦ rw other (make-IsTarget server port)
    ])
  ]

  normalize-IsTarget : (v : Any) → IsTarget (normalize_trojan_fallback lib v)
  unfolding normalize_trojan_fallback normalize_trojan_fallback_map
  normalize-IsTarget (text s) = parse-IsTarget s
  normalize-IsTarget (obj m) = server_and_port-IsTarget _ _
  normalize-IsTarget null = tt
  normalize-IsTarget (bool b) = tt
  normalize-IsTarget (int n) = tt
  normalize-IsTarget (float b) = tt
  normalize-IsTarget (arr l) = tt

  from_settings-IsTarget : (settings : Map Str Any) → IsTarget (from_settings lib settings)
  from_settings-IsTarget settings = elim (Option-cases (lookup (codes "fallback") settings)) [
    | inl missing ↦ rw (missing, IsTarget) (server_and_port-IsTarget _ _)
    | inr (v, found) ↦ rw (found, IsTarget) (normalize-IsTarget v)
  ]

  build-IsTarget : (nc : NodeSpec) → IsTarget (build_trojan_fallback lib nc)
  unfolding build_trojan_fallback
  build-IsTarget nc = elim (Option-cases nc.tls_settings) [
    | inl missing ↦ rw missing tt
    | inr (settings, found) ↦ rw found (from_settings-IsTarget settings)
  ]

  -- A fallback that the TLS settings of a trojan node give, in any of their forms, has a
  -- server that is not empty and a port from 1 to 65535.
  pub build_trojan_fallback-bounds :
      (nc : NodeSpec) (t : Target)
      → build_trojan_fallback lib nc ≡ some t
      → (t.server ≢ []) × (1 ≤ t.server_port) × (t.server_port ≤ 65535)
  build_trojan_fallback-bounds nc t e = subst (λ o. IsTarget o) e (build-IsTarget nc)
