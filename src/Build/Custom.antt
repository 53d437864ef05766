-- ===== src/Build/Custom.antt =====
-- internal/kernel/customcfg.go: the custom configuration file and the lists that it adds to.
use xboard_node_plus.Prelude.{
  Str, List, [], ◌++◌, Option, none, some, if◌then◌else◌, Map, map, str_beq, trim_space, has_prefix,
  codes, Result, ok, err,
}
use xboard_node_plus.Model.Values.{Any}
use xboard_node_plus.Validation.Tags.{File, missing, unreadable, content, to_slice_of_maps}
use Prim.Native.String.{String}
use xboard_node_plus.Build.{M, as_m, put, at, tables, ms, tables_of}
use xboard_node_plus.Build.Library.{Library}

-- The errors of LoadCustomConfig.
pub data LoadError : Type 0 where
  read_custom_config parse_json parse_yaml : LoadError

abbrev pub decoded : LoadError → Option (Map Str Any) → Result LoadError (Option (Map Str Any))
decoded e none = err e
decoded e (some m) = ok (some m)

abbrev pub load_file : Library → File → Result LoadError (Option (Map Str Any))
load_file lib missing = ok none
load_file lib unreadable = err read_custom_config
load_file lib (content s) =
    if str_beq s []
    then ok none
    else if has_prefix (trim_space s) (codes "{")
    then decoded parse_json (lib.decode_json s)
    else decoded parse_yaml (lib.decode_yaml s)

unfoldable pub load_custom_config : Library → Str → Result LoadError (Option (Map Str Any))
load_custom_config lib path =
    if str_beq path [] then ok none else load_file lib (lib.read_file path)

-- toSliceOfMaps refuses a value without maps, and then the list stays as it is.
unfoldable pub merge_append_list : List M → Any → List M
merge_append_list dst src = dst ++ map as_m (to_slice_of_maps (some src))

unfoldable pub merge_prepend_list : List M → Any → List M
merge_prepend_list dst src = map as_m (to_slice_of_maps (some src)) ++ dst

-- A file that cannot be loaded, or that is not there, changes nothing.
abbrev pub merge_loaded : (Map Str Any → M → M) → Result LoadError (Option (Map Str Any)) → M → M
merge_loaded merge (err e) cfg = cfg
merge_loaded merge (ok none) cfg = cfg
merge_loaded merge (ok (some custom)) cfg = merge custom cfg

abbrev add_to : String → (List M → Any → List M) → Any → Option (List M) → M → M
add_to k merge v none m = m
add_to k merge v (some l) m = put k (tables (ms (merge l v))) m

-- m[k] with the custom entries, where m[k] is a list and the custom value is there.
abbrev pub merge_list : String → (List M → Any → List M) → Option Any → M → M
merge_list k merge none m = m
merge_list k merge (some v) m = add_to k merge v (tables_of (at k m)) m
