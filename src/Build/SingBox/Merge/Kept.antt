-- ===== src/Build/SingBox/Merge/Kept.antt =====
-- What a custom configuration file leaves of a built sing-box configuration.
use xboard_node_plus.Prelude.{
  ◌≡◌, refl, ◌∙◌, ap, false, Str, List, [], ◌∷◌, ◌++◌, Option, none, some, Map, str_beq, str_eq,
  lookup, codes, append-nil,
}
use xboard_node_plus.Model.Values.{Any, arr, obj, text, float, int, bool, null}
use xboard_node_plus.Validation.Tags.{fields}
use xboard_node_plus.Validation.Spec.{KernelConfig}
use xboard_node_plus.Build.{M, at, tables, ms, tables_of, copy_found}
use xboard_node_plus.Build.Added.{
  added, in_section, Has, merge_list-append, merge_list-prepend, at-merge_list,
}
use xboard_node_plus.Build.Fields.{
  from_file, at-copy_found_same, at-put, at-put_same, at-copy_found, get-copy_into, lookup-without,
}
use xboard_node_plus.Build.Custom.{merge_list, merge_append_list}
use xboard_node_plus.Build.CustomFile.{FileSays, merged, merge_loaded-FileSays}
use xboard_node_plus.Build.Library.{Library}
use xboard_node_plus.Build.SingBox.Merge.{
  merge_custom_singbox, merge_map, merge_route, merge_custom_singbox_route, merge_route_value,
  merge_rule_set, merge_endpoints, endpoints_to, put_some,
}
use Prim.Native.String.{String}

module _ (i : String) (m : M) where
  at-put_some :
      (k : String) (l : List M)
      → str_beq (codes k) (codes i) ≡ false
      → at i (put_some k l m) ≡ at i m
  at-put_some k [] other = refl
  at-put_some k (x ∷ l) other = at-put k i _ m other

  at-endpoints_to :
      (v : Any) (o : Option (List M))
      → str_beq (codes "endpoints") (codes i) ≡ false
      → at i (endpoints_to v o m) ≡ at i m
  at-endpoints_to v none other = at-put_some "endpoints" (merge_append_list [] v) other
  at-endpoints_to v (some l) other = at-put "endpoints" i _ m other

  at-merge_endpoints :
      (o : Option Any)
      → str_beq (codes "endpoints") (codes i) ≡ false
      → at i (merge_endpoints o m) ≡ at i m
  at-merge_endpoints none other = refl
  at-merge_endpoints (some v) other = at-endpoints_to v (tables_of (at "endpoints" m)) other

  at-merge_rule_set :
      (o : Option Any)
      → str_beq (codes "rule_set") (codes i) ≡ false
      → at i (merge_rule_set o m) ≡ at i m
  at-merge_rule_set none other = refl
  at-merge_rule_set (some v) other = at-put "rule_set" i _ m other

  at-merge_route_value :
      (o : Option Any)
      → str_beq (codes "route") (codes i) ≡ false
      → at i (merge_route_value o m) ≡ at i m
  unfolding merge_custom_singbox_route
  at-merge_route_value (some (obj r)) other = at-put "route" i _ m other
  at-merge_route_value none other = refl
  at-merge_route_value (some null) other = refl
  at-merge_route_value (some (bool b)) other = refl
  at-merge_route_value (some (int n)) other = refl
  at-merge_route_value (some (float b)) other = refl
  at-merge_route_value (some (text s)) other = refl
  at-merge_route_value (some (arr l)) other = refl

rules-merge_route :
    (custom : Map Str Any) (route : M) (k : List M)
    → at "rules" route ≡ some (tables (ms k))
    → at "rules" (merge_route custom route)
      ≡ some (tables (ms (added (lookup (codes "rules") custom) ++ k)))
unfolding merge_route str_beq
rules-merge_route custom route k here =
    get-copy_into (codes "rules") _ _ (lookup-without (codes "rules") _ custom refl)
    ∙ at-merge_rule_set "rules" _ (lookup (codes "rule_set") custom) refl
    ∙ merge_list-prepend "rules" route k here (lookup (codes "rules") custom)

module _ {l k : List M} where
  merge_route_value-Has :
      (o : Option Any) (cfg : M)
      → Has "route" l k cfg
      → Has "route" l (added (in_section "rules" o) ++ k) (merge_route_value o cfg)
  unfolding merge_custom_singbox_route str_beq
  merge_route_value-Has (some (obj m)) cfg h = record {
    route = merge_route (fields m) h.route;
    outbounds = at-put "route" "outbounds" _ cfg refl ∙ h.outbounds;
    routed = rw h.routed (at-put_same "route" _ cfg);
    ruled = rules-merge_route (fields m) h.route k h.ruled;
  }
  merge_route_value-Has none cfg h = h
  merge_route_value-Has (some null) cfg h = h
  merge_route_value-Has (some (bool b)) cfg h = h
  merge_route_value-Has (some (int n)) cfg h = h
  merge_route_value-Has (some (float b)) cfg h = h
  merge_route_value-Has (some (text s)) cfg h = h
  merge_route_value-Has (some (arr a)) cfg h = h

module _ (custom : Map Str Any) (cfg : M) where
  -- The configuration before its route is merged.
  abbrev before_route : M
  before_route = merge_endpoints (lookup (codes "endpoints") custom) (
      merge_list "outbounds" merge_append_list (lookup (codes "outbounds") custom) (
        copy_found "experimental" (lookup (codes "experimental") custom)
          (copy_found "dns" (lookup (codes "dns") custom) cfg)))

  at-before_route :
      (i : String)
      → str_beq (codes "endpoints") (codes i) ≡ false
      → str_beq (codes "outbounds") (codes i) ≡ false
      → str_beq (codes "experimental") (codes i) ≡ false
      → str_beq (codes "dns") (codes i) ≡ false
      → at i before_route ≡ at i cfg
  at-before_route i e o x d =
      at-merge_endpoints i _ (lookup (codes "endpoints") custom) e
      ∙ at-merge_list "outbounds" i merge_append_list (lookup (codes "outbounds") custom) _ o
      ∙ at-copy_found "experimental" i (lookup (codes "experimental") custom) _ x
      ∙ at-copy_found "dns" i (lookup (codes "dns") custom) cfg d

  before_route-Has :
      {l k : List M}
      → Has "route" l k cfg
      → Has "route" (l ++ added (lookup (codes "outbounds") custom)) k before_route
  unfolding str_beq
  before_route-Has {l} h = record {
    route = h.route;
    outbounds =
        at-merge_endpoints "outbounds" _ (lookup (codes "endpoints") custom) refl
        ∙ merge_list-append "outbounds" _ l
            (at-copy_found "experimental" "outbounds" (lookup (codes "experimental") custom) _ refl
              ∙ at-copy_found "dns" "outbounds" (lookup (codes "dns") custom) cfg refl
              ∙ h.outbounds)
            (lookup (codes "outbounds") custom);
    routed = at-before_route "route" refl refl refl refl ∙ h.routed;
    ruled = h.ruled;
  }

  merge_map-Has :
      {l k : List M}
      → Has "route" l k cfg
      → Has "route"
          (l ++ added (lookup (codes "outbounds") custom))
          (added (in_section "rules" (lookup (codes "route") custom)) ++ k)
          (merge_map custom cfg)
  unfolding merge_map
  merge_map-Has h =
      merge_route_value-Has (lookup (codes "route") custom) before_route (before_route-Has h)

  -- A field that the file cannot change.
  at-merge_map :
      (i : String)
      → str_beq (codes "route") (codes i) ≡ false
      → str_beq (codes "endpoints") (codes i) ≡ false
      → str_beq (codes "outbounds") (codes i) ≡ false
      → str_beq (codes "experimental") (codes i) ≡ false
      → str_beq (codes "dns") (codes i) ≡ false
      → at i (merge_map custom cfg) ≡ at i cfg
  unfolding merge_map
  at-merge_map i r e o x d =
      at-merge_route_value i before_route (lookup (codes "route") custom) r
      ∙ at-before_route i e o x d

  -- A field that is looked up once its section is copied.
  at-copied :
      (i : String) (m : M)
      → str_beq (codes "route") (codes i) ≡ false
      → str_beq (codes "endpoints") (codes i) ≡ false
      → str_beq (codes "outbounds") (codes i) ≡ false
      → at i (
          merge_route_value (lookup (codes "route") custom) (
            merge_endpoints
              (lookup (codes "endpoints") custom)
              (merge_list "outbounds" merge_append_list (lookup (codes "outbounds") custom) m)))
        ≡ at i m
  at-copied i m r e o =
      at-merge_route_value i _ (lookup (codes "route") custom) r
      ∙ at-merge_endpoints i _ (lookup (codes "endpoints") custom) e
      ∙ at-merge_list "outbounds" i merge_append_list (lookup (codes "outbounds") custom) m o

  dns-merge_map :
      at "dns" (merge_map custom cfg) ≡ from_file (lookup (codes "dns") custom) (at "dns" cfg)
  unfolding merge_map str_beq
  dns-merge_map =
      at-copied "dns" _ refl refl refl
      ∙ at-copy_found "experimental" "dns" (lookup (codes "experimental") custom) _ refl
      ∙ at-copy_found_same "dns" (lookup (codes "dns") custom) cfg

  experimental-merge_map :
      at "experimental" (merge_map custom cfg)
      ≡ from_file (lookup (codes "experimental") custom) (at "experimental" cfg)
  unfolding merge_map str_beq
  experimental-merge_map =
      at-copied "experimental" _ refl refl refl
      ∙ at-copy_found_same "experimental" (lookup (codes "experimental") custom) _
      ∙ ap (from_file (lookup (codes "experimental") custom))
          (at-copy_found "dns" "experimental" (lookup (codes "dns") custom) cfg refl)

-- What the custom configuration file of a node adds.
abbrev said : Option (Map Str Any) → Map Str Any
said none = []
said (some m) = m

abbrev pub in_file : String → Option (Map Str Any) → Option Any
in_file k file = lookup (codes k) (said file)

abbrev pub file_outbounds : Option (Map Str Any) → List M
file_outbounds file = added (in_file "outbounds" file)

abbrev pub file_rules : Option (Map Str Any) → List M
file_rules file = added (in_section "rules" (in_file "route" file))

-- What merging leaves of the sections: the inbounds and the log as they were, and DNS and the
-- experimental options where the file has none.
pub record KeepsSections (file : Option (Map Str Any)) (before after : M) : Type 0 where
  pub inbounds : at "inbounds" after ≡ at "inbounds" before
  pub log : at "log" after ≡ at "log" before
  pub dns : at "dns" after ≡ from_file (in_file "dns" file) (at "dns" before)
  pub experimental :
      at "experimental" after ≡ from_file (in_file "experimental" file) (at "experimental" before)

module _ (lib : Library) (path : Str) (cfg : M) where
  pub merged-Has :
      (file : Option (Map Str Any)) {l k : List M}
      → Has "route" l k cfg
      → Has "route"
          (l ++ file_outbounds file)
          (file_rules file ++ k)
          (merged lib path merge_map file cfg)
  unfolding lookup
  merged-Has none {l} h = rw (append-nil l) h
  merged-Has (some custom) h = merge_map-Has custom cfg h

  pub merged-KeepsSections :
      (file : Option (Map Str Any)) → KeepsSections file cfg (merged lib path merge_map file cfg)
  unfolding lookup str_beq
  merged-KeepsSections none = record {
    inbounds = refl;
    log = refl;
    dns = refl;
    experimental = refl;
  }
  merged-KeepsSections (some custom) = record {
    inbounds = at-merge_map custom cfg "inbounds" refl refl refl refl refl;
    log = at-merge_map custom cfg "log" refl refl refl refl refl;
    dns = dns-merge_map custom cfg;
    experimental = experimental-merge_map custom cfg;
  }

-- The merge with the file of a node is that with what the file says.
pub merge_custom_singbox-merged :
    (lib : Library) (kcfg : KernelConfig) (cfg : M) (file : Option (Map Str Any))
    → FileSays lib kcfg.custom_config file
    → merge_custom_singbox lib kcfg cfg ≡ merged lib kcfg.custom_config merge_map file cfg
unfolding merge_custom_singbox
merge_custom_singbox-merged lib kcfg cfg file says =
    merge_loaded-FileSays lib kcfg.custom_config merge_map cfg file says
