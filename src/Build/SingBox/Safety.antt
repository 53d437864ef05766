-- ===== src/Build/SingBox/Safety.antt =====
-- A built sing-box configuration, the custom file included.
pub mod Private
use xboard_node_plus.Prelude.{
  ◌≡◌, refl, ◌∙◌, ap, Bool, true, false, List, [], ◌∷◌, ◌++◌, Option, none, some, codes, str_beq,
  Map, Str, Bool-cases, inl, inr, if◌then◌else◌,
}
use xboard_node_plus.Model.Values.{items, Any}
use xboard_node_plus.Model.{NodeSpec, UserSpec}
use xboard_node_plus.Validation.Spec.{KernelConfig}
use xboard_node_plus.Service.Core.{TlsCert}
use xboard_node_plus.Build.{
  set, Value, String, M, put, at, get, table, tables, ms, when, doc, str, flag,
}
use xboard_node_plus.Build.Fields.{at-put, at-put_same, at-when, from_file}
use xboard_node_plus.Build.Added.{Has}
use xboard_node_plus.Build.CustomFile.{FileSays, merged}
use xboard_node_plus.Build.Library.{Library}
use xboard_node_plus.Build.SingBox.{
  outbounds, raw_routes, build_config, log_and_outbounds, put_inbound, needs_geo, cache_file,
}
use xboard_node_plus.Build.SingBox.Inbound.{build_inbound}
use xboard_node_plus.Build.SingBox.Merge.{merge_map}
use xboard_node_plus.Build.SingBox.Merge.Kept.{
  in_file, file_outbounds, file_rules, merged-Has, merged-KeepsSections,
  merge_custom_singbox-merged,
}
use xboard_node_plus.Build.SingBox.Routes.{build_routes, route_rules}

abbrev pub log_section : KernelConfig → M
log_section kcfg = doc (("level", str kcfg.log_level) ∷ ("timestamp", flag true) ∷ [])

module _ (lib : Library) (kcfg : KernelConfig) (nc : NodeSpec) where
  abbrev pub built_rules : List M
  built_rules = route_rules (items nc.routes) (items nc.custom_route_rules) (raw_routes lib kcfg nc)

  abbrev before_route : Option M → M
  before_route inbound = put_inbound lib kcfg nc inbound (log_and_outbounds lib kcfg nc)

  outbounds-before_route :
      (o : Option M) → at "outbounds" (before_route o) ≡ some (tables (ms (outbounds lib kcfg nc)))
  unfolding get str_beq set
  outbounds-before_route none = refl
  outbounds-before_route (some m) = refl

  -- The list of inbounds that an inbound makes.
  abbrev pub inbounds_of : Option M → Option Value
  inbounds_of none = none
  inbounds_of (some m) = some (tables (ms (m ∷ [])))

  inbounds-before_route : (o : Option M) → at "inbounds" (before_route o) ≡ inbounds_of o
  unfolding get str_beq set
  inbounds-before_route none = refl
  inbounds-before_route (some m) = refl

  abbrev route : M
  route = build_routes (items nc.routes) (items nc.custom_route_rules) (raw_routes lib kcfg nc)

  abbrev before_merge : Option M → M
  before_merge o =
      when (needs_geo lib kcfg nc) (put "experimental" (table (cache_file lib kcfg nc)))
        (put "route" (table route) (before_route o))

  at-before_merge :
      (i : String) (o : Option M)
      → str_beq (codes "experimental") (codes i) ≡ false
      → at i (before_merge o) ≡ at i (put "route" (table route) (before_route o))
  at-before_merge i o other = at-when "experimental" i (needs_geo lib kcfg nc) _ _ other

  rules-route : at "rules" route ≡ some (tables (ms built_rules))
  unfolding build_routes get str_beq
  rules-route = refl

  before_merge-Has :
      (o : Option M) → Has "route" (outbounds lib kcfg nc) built_rules (before_merge o)
  unfolding str_beq
  before_merge-Has o = record {
    route = route;
    outbounds =
        at-before_merge "outbounds" o refl
        ∙ at-put "route" "outbounds" _ _ refl
        ∙ outbounds-before_route o;
    routed = at-before_merge "route" o refl ∙ at-put_same "route" _ _;
    ruled = rules-route;
  }

  inbounds-before_merge : (o : Option M) → at "inbounds" (before_merge o) ≡ inbounds_of o
  unfolding str_beq
  inbounds-before_merge o =
      at-before_merge "inbounds" o refl
      ∙ at-put "route" "inbounds" _ _ refl
      ∙ inbounds-before_route o

  log-before_merge : (o : Option M) → at "log" (before_merge o) ≡ some (table (log_section kcfg))
  unfolding str_beq get set
  log-before_merge none =
      at-before_merge "log" none refl ∙ at-put "route" "log" (table route) (before_route none) refl
  log-before_merge (some m) =
      at-before_merge "log" (some m) refl
      ∙ at-put "route" "log" (table route) (before_route (some m)) refl

  dns-before_merge : (o : Option M) → at "dns" (before_merge o) ≡ none
  unfolding str_beq get set
  dns-before_merge none =
      at-before_merge "dns" none refl ∙ at-put "route" "dns" (table route) (before_route none) refl
  dns-before_merge (some m) =
      at-before_merge "dns" (some m) refl
      ∙ at-put "route" "dns" (table route) (before_route (some m)) refl

  no_experimental :
      (o : Option M) → at "experimental" (put "route" (table route) (before_route o)) ≡ none
  unfolding str_beq get set
  no_experimental none = at-put "route" "experimental" (table route) (before_route none) refl
  no_experimental (some m) =
      at-put "route" "experimental" (table route) (before_route (some m)) refl

  -- The cache for the rule sets, where the routes name any.
  abbrev pub geo_cache : Option Value
  geo_cache = if needs_geo lib kcfg nc then some (table (cache_file lib kcfg nc)) else none

  experimental-before_merge : (o : Option M) → at "experimental" (before_merge o) ≡ geo_cache
  experimental-before_merge o = elim (Bool-cases (needs_geo lib kcfg nc)) [
    | inl geo ↦ rw geo (at-put_same "experimental" _ _)
    | inr no_geo ↦ rw no_geo (no_experimental o)
  ]

  -- Without a custom configuration nothing is changed.
  abbrev pub Unchanged : Option (Map Str Any) → M → M → Type 0
  Unchanged none built cfg = cfg ≡ built
  Unchanged (some m) built cfg = Unit

  merged-Unchanged :
      (file : Option (Map Str Any)) (m : M)
      → Unchanged file m (merged lib kcfg.custom_config merge_map file m)
  merged-Unchanged none m = refl
  merged-Unchanged (some f) m = tt

  -- The configuration before the custom file is merged.
  abbrev pub built : List UserSpec → TlsCert → M
  built users tc = before_merge (build_inbound lib nc users tc)

  module _ (users : List UserSpec) (tc : TlsCert) (file : Option (Map Str Any))
      (says : FileSays lib kcfg.custom_config file) where
    build_config-merged :
        build_config lib kcfg nc users tc
        ≡ merged lib kcfg.custom_config merge_map file (built users tc)
    unfolding build_config
    build_config-merged = merge_custom_singbox-merged lib kcfg (built users tc) file says

    -- The sing-box configuration has the (built users tc) outbounds and then those of the custom file, the rules
    -- of the custom file and then the built ones, the inbound of the node alone, or none, the log of
    -- the local configuration, the DNS of the file, and its experimental options or else the cache
    -- of the rule sets. Where there is no custom file, or it cannot be read, is empty or is not of
    -- its format, the configuration is the built one.
    pub build_config-Has :
        Has "route"
          (outbounds lib kcfg nc ++ file_outbounds file)
          (file_rules file ++ built_rules)
          (build_config lib kcfg nc users tc)
        × (at "inbounds" (build_config lib kcfg nc users tc)
            ≡ inbounds_of (build_inbound lib nc users tc))
        × (at "log" (build_config lib kcfg nc users tc) ≡ some (table (log_section kcfg)))
        × (at "dns" (build_config lib kcfg nc users tc) ≡ from_file (in_file "dns" file) none)
        × (at "experimental" (build_config lib kcfg nc users tc)
            ≡ from_file (in_file "experimental" file) geo_cache)
        × Unchanged file (built users tc) (build_config lib kcfg nc users tc)
    build_config-Has =
        let o = build_inbound lib nc users tc in
        let kept = merged-KeepsSections lib kcfg.custom_config (built users tc) file in
        rw build_config-merged (
          merged-Has lib kcfg.custom_config (built users tc) file (before_merge-Has o),
          kept.inbounds ∙ inbounds-before_merge o,
          kept.log ∙ log-before_merge o,
          kept.dns ∙ ap (from_file (in_file "dns" file)) (dns-before_merge o),
          kept.experimental
              ∙ ap (from_file (in_file "experimental" file)) (experimental-before_merge o),
          merged-Unchanged file (built users tc),
        )
