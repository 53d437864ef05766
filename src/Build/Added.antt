-- ===== src/Build/Added.antt =====
-- What a custom configuration adds to a list, and the laws of the additions.
use xboard_node_plus.Prelude.{
  ◌≡◌, refl, ap, false, Str, List, [], ◌++◌, Option, Option-cases, inl, inr, none, some, Map, map,
  str_beq, str_eq, lookup, codes, append-nil, Result, ok, err,
}
use xboard_node_plus.Model.Values.{Any, obj}
use xboard_node_plus.Validation.Tags.{fields, to_slice_of_maps}
use xboard_node_plus.Build.{table, M, at, tables, ms, as_m, tables_of}
use xboard_node_plus.Build.Fields.{at-put, at-put_same, list_of-ms}
use xboard_node_plus.Build.Custom.{merge_list, merge_append_list, merge_prepend_list, LoadError}
use Prim.Native.String.{String}

-- The maps in a custom list, none for a missing one.
abbrev pub added : Option Any → List M
added none = []
added (some v) = map as_m (to_slice_of_maps (some v))

-- The entries under a key of a section of the custom configuration.
abbrev pub in_section : String → Option Any → Option Any
in_section k (some (obj m)) = lookup (codes k) (fields m)
in_section k other = none

-- The custom configuration, where there is one.
abbrev pub loaded : Result LoadError (Option (Map Str Any)) → Map Str Any
loaded (err e) = []
loaded (ok none) = []
loaded (ok (some custom)) = custom

module _ (k : String) (m : M) (l : List M) (here : at k m ≡ some (tables (ms l))) where
  tables_of-here : tables_of (at k m) ≡ some l
  tables_of-here = rw here (ap (λ x. some x) (list_of-ms l))

  pub merge_list-append :
      (o : Option Any)
      → at k (merge_list k merge_append_list o m) ≡ some (tables (ms (l ++ added o)))
  unfolding merge_append_list
  merge_list-append none = rw (append-nil l) here
  merge_list-append (some v) = rw tables_of-here (at-put_same k _ m)

  pub merge_list-prepend :
      (o : Option Any)
      → at k (merge_list k merge_prepend_list o m) ≡ some (tables (ms (added o ++ l)))
  unfolding merge_prepend_list
  merge_list-prepend none = here
  merge_list-prepend (some v) = rw tables_of-here (at-put_same k _ m)

pub at-merge_list :
    (k i : String) (merge : List M → Any → List M) (o : Option Any) (m : M)
    → str_beq (codes k) (codes i) ≡ false
    → at i (merge_list k merge o m) ≡ at i m
at-merge_list k i merge none m other = refl
at-merge_list k i merge (some v) m other = elim (Option-cases (tables_of (at k m))) [
  | inl missing ↦ rw missing refl
  | inr (l, found) ↦ rw found (at-put k i _ m other)
]

-- A configuration with the outbounds l and, in its section for routes, the rules k.
pub record Has (section : String) (l k : List M) (cfg : M) : Type 0 where
  pub route : M
  pub outbounds : at "outbounds" cfg ≡ some (tables (ms l))
  pub routed : at section cfg ≡ some (table route)
  pub ruled : at "rules" route ≡ some (tables (ms k))
