-- ===== src/Validation/Tags.antt =====
-- internal/model/custom_config_tags.go: the tags of the outbounds that the local configuration adds,
-- from its list and from a file of the kernel's own format. Reading the file and decoding its text
-- are parameters.
pub mod Collisions
pub mod Local
use xboard_node_plus.Prelude.{
  ℕ, ◌+◌, Str, Bool, true, false, List, [], ◌∷◌, ◌++◌, Option, none, some, if◌then◌else◌, ok, err,
  ◌>>◌, ◌>>=◌, Map, trim_space, to_lower, codes, str_beq, reject_if, has, insert, lookup, map,
  Result, str_eq, str_beq, has_prefix,
}
use xboard_node_plus.Validation.{
  colliding_tag, duplicate_source_tag, unreadable_custom_config, Invalid, Check,
}
use xboard_node_plus.Model.Values.{
  obj, arr, text, float, int, bool, null, nil, end, cons, field, Any, Items, Fields, AnyMap, Slice,
  items,
}
use xboard_node_plus.Model.{OutboundConfig}

-- Where a tag stands: kernel.custom_outbound[i] or kernel.custom_config.outbounds[i].
pub data Source : Type 0 where
  custom_outbound : ℕ → Source
  custom_config : ℕ → Source

pub record OutboundTagSource : Type 0 where
  pub tag : Str
  pub source : Source

-- What os.ReadFile gives for a path.
pub data File : Type 0 where
  missing : File
  unreadable : File
  content : Str → File

-- v.(string), "" for another type
abbrev pub text_of : Option Any → Str
text_of none = []
text_of (some null) = []
text_of (some (bool b)) = []
text_of (some (int n)) = []
text_of (some (float b)) = []
text_of (some (text s)) = s
text_of (some (arr l)) = []
text_of (some (obj m)) = []

abbrev pub fields : Fields → Map Str Any
fields end = []
fields (field k v m) = (k, v) ∷ fields m

unfoldable pub maps_of : Items → List (Map Str Any)
maps_of nil = []
maps_of (cons null l) = maps_of l
maps_of (cons (bool b) l) = maps_of l
maps_of (cons (int n) l) = maps_of l
maps_of (cons (float b) l) = maps_of l
maps_of (cons (text s) l) = maps_of l
maps_of (cons (arr a) l) = maps_of l
maps_of (cons (obj m) l) = fields m ∷ maps_of l

-- toSliceOfMaps: for a value that it refuses, no maps, which its caller treats alike.
abbrev pub to_slice_of_maps : Option Any → List (Map Str Any)
to_slice_of_maps none = []
to_slice_of_maps (some null) = []
to_slice_of_maps (some (bool b)) = []
to_slice_of_maps (some (int n)) = []
to_slice_of_maps (some (float b)) = []
to_slice_of_maps (some (text s)) = []
to_slice_of_maps (some (arr l)) = maps_of l
to_slice_of_maps (some (obj m)) = []

-- The loop over the outbounds of a source, from index i.
unfoldable pub tag_sources : (ℕ → Source) → ℕ → List (Map Str Any) → List OutboundTagSource
tag_sources source i [] = []
tag_sources source i (m ∷ l) =
    let tag = trim_space (text_of (lookup (codes "tag") m)) in
    let rest = tag_sources source (i + 1) l in
    if str_beq tag [] then rest else record { tag = tag; source = source i } ∷ rest

unfoldable pub collect_raw_outbound_tag_sources : Slice AnyMap → List OutboundTagSource
collect_raw_outbound_tag_sources l = tag_sources custom_outbound 0 (map items (items l))

module _ (read_file : Str → File) (decode_json decode_yaml : Str → Option (Map Str Any)) where
  abbrev decoded_sources : Option (Map Str Any) → Result Invalid (List OutboundTagSource)
  decoded_sources none = err unreadable_custom_config
  decoded_sources (some m) =
      ok (tag_sources custom_config 0 (to_slice_of_maps (lookup (codes "outbounds") m)))

  unfoldable pub file_sources : File → Result Invalid (List OutboundTagSource)
  file_sources missing = ok []
  file_sources unreadable = err unreadable_custom_config
  file_sources (content s) =
      let trimmed = trim_space s in
      if str_beq trimmed []
      then ok []
      else decoded_sources (if has_prefix trimmed (codes "{") then decode_json s else decode_yaml s)

  unfoldable pub collect_custom_config_outbound_tag_sources :
      Str → Result Invalid (List OutboundTagSource)
  collect_custom_config_outbound_tag_sources path =
      if str_beq (trim_space path) [] then ok [] else file_sources (read_file path)

  unfoldable pub collect_additional_outbound_tag_sources :
      Str → Slice AnyMap → Result Invalid (List OutboundTagSource)
  collect_additional_outbound_tag_sources path raw = do
    custom ← collect_custom_config_outbound_tag_sources path
    ok (collect_raw_outbound_tag_sources raw ++ custom)

-- The first loop of validateOutboundTagCollisions.
unfoldable pub seen_sources :
    Map Str Source → List OutboundTagSource → Result Invalid (Map Str Source)
seen_sources seen [] = ok seen
seen_sources seen (s ∷ l) =
    let key = to_lower (trim_space s.tag) in
    if str_beq key []
    then seen_sources seen l
    else (reject_if (has key seen) (duplicate_source_tag s.tag)
        >> seen_sources (insert key s.source seen) l)

-- The second loop.
unfoldable pub check_collisions : ℕ → Map Str Source → List OutboundConfig → Check
check_collisions i seen [] = ok tt
check_collisions i seen (o ∷ l) =
    let key = to_lower (trim_space o.tag) in
    if str_beq key []
    then check_collisions (i + 1) seen l
    else (reject_if (has key seen) (colliding_tag i o.tag) >> check_collisions (i + 1) seen l)

unfoldable pub validate_outbound_tag_collisions :
    List OutboundConfig → List OutboundTagSource → Check
validate_outbound_tag_collisions structured additional = do
  seen ← seen_sources [] additional
  check_collisions 0 seen structured

unfoldable pub additional_tag_names : List OutboundTagSource → List Str
additional_tag_names = map (λ s. s.tag)
