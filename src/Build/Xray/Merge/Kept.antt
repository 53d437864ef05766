-- ===== src/Build/Xray/Merge/Kept.antt =====
-- What a custom configuration file leaves of a built xray configuration.
use xboard_node_plus.Prelude.{
  ◌≡◌, refl, ◌∙◌, false, true, Str, List, ◌++◌, Option, none, some, Map, str_beq, str_eq, lookup,
  codes, Result, ok, err, append-nil,
}
use xboard_node_plus.Model.Values.{Any, arr, obj, text, float, int, bool, null}
use xboard_node_plus.Validation.Tags.{fields}
use xboard_node_plus.Validation.Spec.{KernelConfig}
use xboard_node_plus.Build.{M, at, tables, ms, copy_found, is_text}
use xboard_node_plus.Build.Added.{
  Has, added, in_section, loaded, merge_list-append, merge_list-prepend, at-merge_list,
}
use xboard_node_plus.Build.Fields.{
  at-put, at-put_same, at-copy_found, get-copy_into, lookup-without,
}
use xboard_node_plus.Build.Custom.{
  load_custom_config, merge_list, merge_append_list, LoadError, merge_loaded,
}
use xboard_node_plus.Build.Library.{Library}
use xboard_node_plus.Build.Xray.Merge.{
  merge_custom_xray, merge_map, merge_routing, merge_custom_xray_routing, merge_routing_value,
  protected,
}
use Prim.Native.String.{String}

at-merge_routing_value :
    (i : String) (m : M) (o : Option Any)
    → str_beq (codes "routing") (codes i) ≡ false
    → at i (merge_routing_value o m) ≡ at i m
unfolding merge_custom_xray_routing
at-merge_routing_value i m (some (obj r)) other = at-put "routing" i _ m other
at-merge_routing_value i m none other = refl
at-merge_routing_value i m (some null) other = refl
at-merge_routing_value i m (some (bool b)) other = refl
at-merge_routing_value i m (some (int n)) other = refl
at-merge_routing_value i m (some (float b)) other = refl
at-merge_routing_value i m (some (text s)) other = refl
at-merge_routing_value i m (some (arr l)) other = refl

rules-merge_routing :
    (custom : Map Str Any) (routing : M) (k : List M)
    → at "rules" routing ≡ some (tables (ms k))
    → at "rules" (merge_routing custom routing)
      ≡ some (tables (ms (added (lookup (codes "rules") custom) ++ k)))
unfolding merge_routing str_beq
rules-merge_routing custom routing k here =
    get-copy_into (codes "rules") _ _ (lookup-without (codes "rules") _ custom refl)
    ∙ merge_list-prepend "rules" routing k here (lookup (codes "rules") custom)

module _ {l k : List M} where
  merge_routing_value-Has :
      (o : Option Any) (cfg : M)
      → Has "routing" l k cfg
      → Has "routing" l (added (in_section "rules" o) ++ k) (merge_routing_value o cfg)
  unfolding merge_custom_xray_routing str_beq
  merge_routing_value-Has (some (obj m)) cfg h = record {
    route = merge_routing (fields m) h.route;
    outbounds = at-put "routing" "outbounds" _ cfg refl ∙ h.outbounds;
    routed = rw h.routed (at-put_same "routing" _ cfg);
    ruled = rules-merge_routing (fields m) h.route k h.ruled;
  }
  merge_routing_value-Has none cfg h = h
  merge_routing_value-Has (some null) cfg h = h
  merge_routing_value-Has (some (bool b)) cfg h = h
  merge_routing_value-Has (some (int n)) cfg h = h
  merge_routing_value-Has (some (float b)) cfg h = h
  merge_routing_value-Has (some (text s)) cfg h = h
  merge_routing_value-Has (some (arr a)) cfg h = h

module _ (custom : Map Str Any) (cfg : M) where
  -- The configuration before its routing is merged.
  abbrev before_routing : M
  before_routing =
      merge_list "outbounds" merge_append_list (lookup (codes "outbounds") custom)
        (copy_found "dns" (lookup (codes "dns") custom) cfg)

  at-before_routing :
      (i : String)
      → str_beq (codes "outbounds") (codes i) ≡ false
      → str_beq (codes "dns") (codes i) ≡ false
      → at i before_routing ≡ at i cfg
  at-before_routing i o d =
      at-merge_list "outbounds" i merge_append_list (lookup (codes "outbounds") custom) _ o
      ∙ at-copy_found "dns" i (lookup (codes "dns") custom) cfg d

  -- A protected key is not overridden by the rest of the file.
  at-merge_map :
      (i : String)
      → is_text (codes i) protected ≡ true
      → at i (merge_map custom cfg)
        ≡ at i (merge_routing_value (lookup (codes "routing") custom) before_routing)
  unfolding merge_map
  at-merge_map i listed =
      get-copy_into (codes i) _ _ (lookup-without (codes i) protected custom listed)

  merge_map-Has :
      {l k : List M}
      → Has "routing" l k cfg
      → Has "routing"
          (l ++ added (lookup (codes "outbounds") custom))
          (added (in_section "rules" (lookup (codes "routing") custom)) ++ k)
          (merge_map custom cfg)
  unfolding str_beq
  merge_map-Has {l} {k} h =
      let first : Has "routing" (l ++ added (lookup (codes "outbounds") custom)) k before_routing =
        record {
          route = h.route;
          outbounds =
              merge_list-append "outbounds" _ l
                (at-copy_found "dns" "outbounds" (lookup (codes "dns") custom) cfg refl
                  ∙ h.outbounds)
                (lookup (codes "outbounds") custom);
          routed = at-before_routing "routing" refl refl ∙ h.routed;
          ruled = h.ruled;
        } in
      let merged = merge_routing_value-Has (lookup (codes "routing") custom) before_routing first in
      record {
        route = merged.route;
        outbounds = at-merge_map "outbounds" refl ∙ merged.outbounds;
        routed = at-merge_map "routing" refl ∙ merged.routed;
        ruled = merged.ruled;
      }

  inbounds-merge_map : at "inbounds" (merge_map custom cfg) ≡ at "inbounds" cfg
  unfolding str_beq
  inbounds-merge_map =
      at-merge_map "inbounds" refl
      ∙ at-merge_routing_value "inbounds" before_routing (lookup (codes "routing") custom) refl
      ∙ at-before_routing "inbounds" refl refl

module _ (cfg : M) {l k : List M} (h : Has "routing" l k cfg) where
  merge_loaded-Keeps :
      (r : Result LoadError (Option (Map Str Any)))
      → Has "routing"
          (l ++ added (lookup (codes "outbounds") (loaded r)))
          (added (in_section "rules" (lookup (codes "routing") (loaded r))) ++ k)
          (merge_loaded merge_map r cfg)
        × (at "inbounds" (merge_loaded merge_map r cfg) ≡ at "inbounds" cfg)
  unfolding lookup
  merge_loaded-Keeps (err e) = rw (append-nil l) (h, refl)
  merge_loaded-Keeps (ok none) = rw (append-nil l) (h, refl)
  merge_loaded-Keeps (ok (some custom)) =
      (merge_map-Has custom cfg h, inbounds-merge_map custom cfg)

-- What the custom configuration file of a node adds.
module _ (lib : Library) (kcfg : KernelConfig) where
  abbrev file : Map Str Any
  file = loaded (load_custom_config lib kcfg.custom_config)

  abbrev pub file_outbounds : List M
  file_outbounds = added (lookup (codes "outbounds") file)

  abbrev pub file_rules : List M
  file_rules = added (in_section "rules" (lookup (codes "routing") file))

  pub merge_custom_xray-Keeps :
      (cfg : M) {l k : List M}
      → Has "routing" l k cfg
      → Has "routing" (l ++ file_outbounds) (file_rules ++ k) (merge_custom_xray lib kcfg cfg)
        × (at "inbounds" (merge_custom_xray lib kcfg cfg) ≡ at "inbounds" cfg)
  unfolding merge_custom_xray
  merge_custom_xray-Keeps cfg h =
      merge_loaded-Keeps cfg h (load_custom_config lib kcfg.custom_config)
