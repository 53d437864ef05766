-- ===== src/Build/SingBox/Routes/Targets.antt =====
-- The outbound of the rules that compileCustomRouteRule of sing-box makes.
use xboard_node_plus.Prelude.{
  ◌≡◌, refl, ◌∙◌, ℕ, false, Str, List, [], ◌∷◌, ◌++◌, some, All, str_beq, codes,
}
use xboard_node_plus.Model.{RouteMatch}
use xboard_node_plus.Model.Values.{items}
use xboard_node_plus.Build.{M, Value, at, get, put, doc, strings, ints}
use xboard_node_plus.Build.Fields.{at-put, All-append}
use xboard_node_plus.Build.SingBox.Routes.{
  rule_of, add_ports, add_ranges, split_ports, port_rule, source_port_rule, compile_match,
}
use Prim.Native.String.{String}

module _ (v : Value) where
  abbrev pub GoesTo : M → Type 0
  GoesTo m = at "outbound" m ≡ some v

  rule_of-GoesTo :
      (l : List Str) (make : Value → M)
      → ((x : Value) → GoesTo (make x))
      → All GoesTo (rule_of l make)
  rule_of-GoesTo [] make h = tt
  rule_of-GoesTo (s ∷ l) make h = (h (strings (s ∷ l)), tt)

  keyed-GoesTo :
      (k : String) (l : List Str)
      → str_beq (codes k) (codes "outbound") ≡ false
      → All GoesTo (rule_of l (λ x. doc ((k, x) ∷ ("outbound", v) ∷ [])))
  unfolding get str_beq
  keyed-GoesTo k [] other = tt
  keyed-GoesTo k (s ∷ l) other = (rw other refl, tt)

  add_ports-GoesTo :
      (k : String) (l : List ℕ) (m : M)
      → str_beq (codes k) (codes "outbound") ≡ false
      → GoesTo m
      → GoesTo (add_ports (λ p. put k (ints p)) l m)
  add_ports-GoesTo k [] m other h = h
  add_ports-GoesTo k (n ∷ l) m other h = at-put k "outbound" _ m other ∙ h

  add_ranges-GoesTo :
      (k : String) (l : List Str) (m : M)
      → str_beq (codes k) (codes "outbound") ≡ false
      → GoesTo m
      → GoesTo (add_ranges (λ r. put k (strings r)) l m)
  add_ranges-GoesTo k [] m other h = h
  add_ranges-GoesTo k (s ∷ l) m other h = at-put k "outbound" _ m other ∙ h

  port_rule-GoesTo : (l : List Str) → All GoesTo (port_rule v l)
  unfolding get str_beq
  port_rule-GoesTo [] = tt
  port_rule-GoesTo (s ∷ l) = (
    add_ranges-GoesTo "port_range" (split_ports (s ∷ l)).1 _ refl
        (add_ports-GoesTo "port" (split_ports (s ∷ l)).0 _ refl refl),
    tt,
  )

  source_port_rule-GoesTo : (l : List Str) → All GoesTo (source_port_rule v l)
  unfolding get str_beq
  source_port_rule-GoesTo [] = tt
  source_port_rule-GoesTo (s ∷ l) = (
    add_ranges-GoesTo "source_port_range" (split_ports (s ∷ l)).1 _ refl
        (add_ports-GoesTo "source_port" (split_ports (s ∷ l)).0 _ refl refl),
    tt,
  )

  abbrev both : (l k : List M) → All GoesTo l → All GoesTo k → All GoesTo (l ++ k)
  both = All-append GoesTo

  pub compile_match-GoesTo : (m : RouteMatch) → All GoesTo (compile_match v m)
  unfolding compile_match str_beq
  compile_match-GoesTo m = both _ _ (keyed-GoesTo "domain" (items m.domains) refl) (
      both _ _ (keyed-GoesTo "domain_suffix" (items m.domain_suffixes) refl) (
        both _ _ (keyed-GoesTo "ip_cidr" (items m.ip_cidrs) refl) (
          both _ _ (port_rule-GoesTo (items m.ports)) (
            both _ _ (keyed-GoesTo "network" (items m.networks) refl) (
              both _ _ (keyed-GoesTo "source_ip_cidr" (items m.source_cidrs) refl)
                (source_port_rule-GoesTo (items m.source_ports)))))))
