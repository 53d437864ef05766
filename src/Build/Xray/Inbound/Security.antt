-- ===== src/Build/Xray/Inbound/Security.antt =====
-- The security of the streams of an xray trojan inbound.
use xboard_node_plus.Prelude.{
  ◌≡◌, refl, ◌∙◌, ◌⊎◌, inl, inr, Bool, true, false, Str, List, Option, none, some, str_beq,
  str_beq_iff, codes, Bool-cases, arith,
}
use xboard_node_plus.Model.Values.{arr, obj, text, float, int, bool, null}
use xboard_node_plus.Model.{NodeSpec, UserSpec}
use xboard_node_plus.Service.Core.{TlsCert}
use xboard_node_plus.Build.{M, Value, raw, strings, ints, table, tables, str, at, table_of}
use xboard_node_plus.Build.Fields.{at-put, at-put_same, at-when}
use xboard_node_plus.Build.Library.{Library}
use xboard_node_plus.Build.Settings.{get_proxy_protocol}
use xboard_node_plus.Build.Xray.Stream.{apply_stream_settings}
use xboard_node_plus.Build.Xray.Inbound.{
  build_trojan, forced, secured, security_of, is_secure, trojan_first,
}

-- Streams under TLS or Reality.
abbrev pub IsSecure : Option Value → Type 0
IsSecure v = (s : Str) × (v ≡ some (str s)) × ((s ≡ codes "tls") ⊎ (s ≡ codes "reality"))

abbrev pub HasSecurity : M → Type 0
HasSecurity inbound =
    (ss : M) × (at "streamSettings" inbound ≡ some (table ss)) × IsSecure (at "security" ss)

module _ (lib : Library) (nc : NodeSpec) (users : List UserSpec) (tc : TlsCert) where
  is_secure_sound : (v : Option Value) → is_secure lib nc users tc v ≡ true → IsSecure v
  is_secure_sound (some (raw (text s))) e = elim (Bool-cases (str_beq s (codes "tls"))) [
    | inl tls ↦ (s, refl, inl ((str_beq_iff s (codes "tls")).0 tls))
    | inr other ↦ (s, refl, inr ((str_beq_iff s (codes "reality")).0 (ground (arith, e, other))))
  ]
  is_secure_sound none e = absurd (cc)
  is_secure_sound (some (raw null)) e = absurd (cc)
  is_secure_sound (some (raw (bool b))) e = absurd (cc)
  is_secure_sound (some (raw (int n))) e = absurd (cc)
  is_secure_sound (some (raw (float b))) e = absurd (cc)
  is_secure_sound (some (raw (arr l))) e = absurd (cc)
  is_secure_sound (some (raw (obj m))) e = absurd (cc)
  is_secure_sound (some (strings l)) e = absurd (cc)
  is_secure_sound (some (ints l)) e = absurd (cc)
  is_secure_sound (some (table m)) e = absurd (cc)
  is_secure_sound (some (tables l)) e = absurd (cc)

  security_of_sound :
      (v : Option Value)
      → security_of lib nc users tc (table_of v) ≡ true
      → (ss : M) × (v ≡ some (table ss)) × IsSecure (at "security" ss)
  security_of_sound (some (table ss)) e = (ss, refl, is_secure_sound (at "security" ss) e)
  security_of_sound none e = absurd (cc)
  security_of_sound (some (raw a)) e = absurd (cc)
  security_of_sound (some (strings l)) e = absurd (cc)
  security_of_sound (some (ints l)) e = absurd (cc)
  security_of_sound (some (tables l)) e = absurd (cc)

  forced-HasSecurity :
      (m : M) → HasSecurity (apply_stream_settings lib (forced lib nc users tc) tc m)
  unfolding apply_stream_settings str_beq
  forced-HasSecurity m = (
    _,
    at-put_same "streamSettings" _ m,
    (
      codes "tls",
      at-when "sockopt" "security" (get_proxy_protocol (forced lib nc users tc)) _ _ refl
          ∙ at-put "tlsSettings" "security" _ _ refl
          ∙ at-put_same "security" _ _,
      inl refl,
    ),
  )

  secured-HasSecurity :
      (b : Bool) (m : M)
      → security_of lib nc users tc (table_of (at "streamSettings" m)) ≡ b
      → HasSecurity (secured lib nc users tc b m).0
  secured-HasSecurity true m e = security_of_sound (at "streamSettings" m) e
  secured-HasSecurity false m e = forced-HasSecurity m

  -- An xray trojan inbound always has stream settings under TLS or Reality, whatever the TLS
  -- mode of the node and whether there is a certificate.
  pub build_trojan-HasSecurity : (base : M) → HasSecurity (build_trojan lib nc users tc base).0
  unfolding build_trojan
  build_trojan-HasSecurity base = secured-HasSecurity _ (trojan_first lib nc users tc base) refl
