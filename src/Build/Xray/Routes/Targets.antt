-- ===== src/Build/Xray/Routes/Targets.antt =====
-- The outbound of the rules that compileCustomRouteRule of xray makes.
use xboard_node_plus.Prelude.{
  ◌≡◌, refl, false, Str, List, [], ◌∷◌, ◌++◌, some, All, str_beq, codes, map,
}
use xboard_node_plus.Model.{RouteMatch}
use xboard_node_plus.Model.Values.{items}
use xboard_node_plus.Build.{M, Value, at, get}
use xboard_node_plus.Build.Fields.{All-append}
use xboard_node_plus.Build.Xray.Routes.{
  field_rule, strings_rule, joined_rule, trimmed, compile_match,
}
use Prim.Native.String.{String}

module _ (v : Value) where
  abbrev pub GoesTo : M → Type 0
  GoesTo m = at "outboundTag" m ≡ some v

  field_rule-GoesTo :
      (k : String) (x : Value)
      → str_beq (codes k) (codes "outboundTag") ≡ false
      → GoesTo (field_rule v k x)
  unfolding get str_beq
  field_rule-GoesTo k x other = rw other refl

  strings_rule-GoesTo :
      (k : String) (l : List Str)
      → str_beq (codes k) (codes "outboundTag") ≡ false
      → All GoesTo (strings_rule v k l)
  strings_rule-GoesTo k [] other = tt
  strings_rule-GoesTo k (s ∷ l) other = (field_rule-GoesTo k _ other, tt)

  joined_rule-GoesTo :
      (k : String) (l : List Str)
      → str_beq (codes k) (codes "outboundTag") ≡ false
      → All GoesTo (joined_rule v k l)
  joined_rule-GoesTo k [] other = tt
  joined_rule-GoesTo k (s ∷ l) other = (field_rule-GoesTo k _ other, tt)

  abbrev both : (l k : List M) → All GoesTo l → All GoesTo k → All GoesTo (l ++ k)
  both = All-append GoesTo

  pub compile_match-GoesTo : (m : RouteMatch) → All GoesTo (compile_match v m)
  unfolding compile_match str_beq
  compile_match-GoesTo m =
      both _ _
        (strings_rule-GoesTo "domain"
          (trimmed (items m.domains)
            ++ map (λ s. codes "domain:" ++ s) (trimmed (items m.domain_suffixes)))
          refl)
        (both _ _ (strings_rule-GoesTo "ip" (items m.ip_cidrs) refl) (
          both _ _ (joined_rule-GoesTo "port" (items m.ports) refl) (
            both _ _ (joined_rule-GoesTo "network" (items m.networks) refl) (
              both _ _ (strings_rule-GoesTo "source" (items m.source_cidrs) refl)
                (joined_rule-GoesTo "sourcePort" (items m.source_ports) refl)))))
