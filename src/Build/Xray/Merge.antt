-- ===== src/Build/Xray/Merge.antt =====
-- mergeCustomXray: what the custom configuration file changes in a built configuration.
pub mod Kept
use xboard_node_plus.Prelude.{
  Str, List, [], ◌∷◌, Option, none, some, Map, str_eq, lookup, codes, or_else,
}
use xboard_node_plus.Model.Values.{Any, arr, obj, text, float, int, bool, null}
use xboard_node_plus.Validation.Tags.{fields}
use xboard_node_plus.Validation.Spec.{KernelConfig}
use xboard_node_plus.Build.{M, empty, put, at, table, copy_found, copy_into, without, table_of}
use xboard_node_plus.Build.Custom.{
  load_custom_config, merge_append_list, merge_prepend_list, merge_list, merge_loaded,
}
use xboard_node_plus.Build.Library.{Library}

unfoldable pub merge_routing : Map Str Any → M → M
merge_routing custom routing =
    copy_into (merge_list "rules" merge_prepend_list (lookup (codes "rules") custom) routing)
      (without (codes "rules" ∷ []) custom)

unfoldable pub merge_custom_xray_routing : Map Str Any → M → M
merge_custom_xray_routing custom cfg =
    put "routing" (table (merge_routing custom (or_else (table_of (at "routing" cfg)) empty))) cfg

abbrev merge_routing_value : Option Any → M → M
merge_routing_value (some (obj m)) cfg = merge_custom_xray_routing (fields m) cfg
merge_routing_value other cfg = cfg

abbrev protected : List Str
protected =
    codes "inbounds"
    ∷ codes "outbounds"
    ∷ codes "routing"
    ∷ codes "dns"
    ∷ codes "log"
    ∷ codes "stats"
    ∷ codes "policy"
    ∷ []

unfoldable pub merge_map : Map Str Any → M → M
merge_map custom cfg =
    copy_into
      (merge_routing_value (lookup (codes "routing") custom) (
        merge_list "outbounds" merge_append_list (lookup (codes "outbounds") custom)
          (copy_found "dns" (lookup (codes "dns") custom) cfg)))
      (without protected custom)

unfoldable pub merge_custom_xray : Library → KernelConfig → M → M
merge_custom_xray lib kcfg = merge_loaded merge_map (load_custom_config lib kcfg.custom_config)
