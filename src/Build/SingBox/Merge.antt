-- ===== src/Build/SingBox/Merge.antt =====
-- mergeCustomSingbox: what the custom configuration file changes in a built configuration.
pub mod Kept
use xboard_node_plus.Prelude.{
  Str, Bool, List, [], ◌∷◌, ◌++◌, Option, none, some, if◌then◌else◌, Map, str_eq, lookup, codes,
  Result, ok, err, or_else,
}
use xboard_node_plus.Model.Values.{Any, arr, obj, text, float, int, bool, null}
use xboard_node_plus.Validation.Tags.{fields}
use xboard_node_plus.Validation.Spec.{KernelConfig}
use xboard_node_plus.Build.{
  M, empty, Value, put, at, table, tables, ms, copy_found, copy_into, without, tables_of, table_of,
}
use xboard_node_plus.Build.Custom.{
  merge_list, merge_loaded, load_custom_config, merge_append_list, merge_prepend_list,
}
use xboard_node_plus.Build.Library.{Library}
use Prim.Native.String.{String}

abbrev put_some : String → List M → M → M
put_some k [] m = m
put_some k (x ∷ l) m = put k (tables (ms (x ∷ l))) m

abbrev endpoints_to : Any → Option (List M) → M → M
endpoints_to v none cfg = put_some "endpoints" (merge_append_list [] v) cfg
endpoints_to v (some l) cfg = put "endpoints" (tables (ms (merge_append_list l v))) cfg

abbrev merge_endpoints : Option Any → M → M
merge_endpoints none cfg = cfg
merge_endpoints (some v) cfg = endpoints_to v (tables_of (at "endpoints" cfg)) cfg

-- The list of rule sets is made where there is none.
abbrev merge_rule_set : Option Any → M → M
merge_rule_set none route = route
merge_rule_set (some v) route =
    put "rule_set"
      (tables (ms (merge_append_list (or_else (tables_of (at "rule_set" route)) []) v))) route

unfoldable pub merge_route : Map Str Any → M → M
merge_route custom route =
    copy_into
      (merge_rule_set (lookup (codes "rule_set") custom)
        (merge_list "rules" merge_prepend_list (lookup (codes "rules") custom) route))
      (without (codes "rules" ∷ codes "rule_set" ∷ []) custom)

unfoldable pub merge_custom_singbox_route : Map Str Any → M → M
merge_custom_singbox_route custom cfg =
    put "route" (table (merge_route custom (or_else (table_of (at "route" cfg)) empty))) cfg

abbrev merge_route_value : Option Any → M → M
merge_route_value (some (obj m)) cfg = merge_custom_singbox_route (fields m) cfg
merge_route_value other cfg = cfg

unfoldable pub merge_map : Map Str Any → M → M
merge_map custom cfg = merge_route_value (lookup (codes "route") custom) (
    merge_endpoints (lookup (codes "endpoints") custom) (
      merge_list "outbounds" merge_append_list (lookup (codes "outbounds") custom) (
        copy_found "experimental" (lookup (codes "experimental") custom)
          (copy_found "dns" (lookup (codes "dns") custom) cfg))))

unfoldable pub merge_custom_singbox : Library → KernelConfig → M → M
merge_custom_singbox lib kcfg = merge_loaded merge_map (load_custom_config lib kcfg.custom_config)
