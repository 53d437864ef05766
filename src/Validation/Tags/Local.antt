-- ===== src/Validation/Tags/Local.antt =====
-- The tags of the local configuration, in terms of what its file holds.
use xboard_node_plus.Prelude.{
  Str, true, false, List, [], ◌++◌, Option, none, some, ok, Map, trim_space, codes, str_beq,
  str_beq_iff, lookup, str_eq, map, has_prefix, ◌≡◌, ◌≢◌, ◌⊎◌, ◌↔◌, inl, inr, refl, arith, bind-ok,
  Bool-cases,
}
use xboard_node_plus.Validation.Tags.{
  File, missing, unreadable, content, OutboundTagSource, custom_config, custom_outbound,
  decoded_sources, tag_sources, to_slice_of_maps, collect_raw_outbound_tag_sources, file_sources,
  collect_custom_config_outbound_tag_sources, collect_additional_outbound_tag_sources,
}
use xboard_node_plus.Model.Values.{Any, AnyMap, Slice, items}

module _ (read_file : Str → File) (decode_json decode_yaml : Str → Option (Map Str Any)) where
  -- A text that begins with a brace is JSON, another one YAML.
  abbrev Decodes : Str → Map Str Any → Type 0
  Decodes s m =
      ((has_prefix (trim_space s) (codes "{") ≡ true) × (decode_json s ≡ some m))
      ⊎ ((has_prefix (trim_space s) (codes "{") ≡ false) × (decode_yaml s ≡ some m))

  -- The tags of the file: none without a file or in a blank one, else those of its outbounds.
  pub data FileTags (path : Str) (sources : List OutboundTagSource) : Type 0 where
    no_path : trim_space path ≡ [] → sources ≡ [] → FileTags path sources
    no_file : trim_space path ≢ [] → read_file path ≡ missing → sources ≡ [] → FileTags path sources
    blank :
        (s : Str)
        → trim_space path ≢ []
        → read_file path ≡ content s
        → trim_space s ≡ []
        → sources ≡ []
        → FileTags path sources
    decoded :
        (s : Str) (m : Map Str Any)
        → trim_space path ≢ []
        → read_file path ≡ content s
        → trim_space s ≢ []
        → Decodes s m
        → sources ≡ tag_sources custom_config 0 (to_slice_of_maps (lookup (codes "outbounds") m))
        → FileTags path sources

  abbrev sources_of : Map Str Any → List OutboundTagSource
  sources_of m = tag_sources custom_config 0 (to_slice_of_maps (lookup (codes "outbounds") m))

  decoded_sound :
      (o : Option (Map Str Any)) (sources : List OutboundTagSource)
      → decoded_sources read_file decode_json decode_yaml o ≡ ok sources
      → (m : Map Str Any) × (o ≡ some m) × (sources ≡ sources_of m)
  decoded_sound none sources h = absurd (cc)
  decoded_sound (some m) sources h = (m, refl, cc)

  module _ (path : Str) (given : trim_space path ≢ []) where
    content_sound :
        (s : Str) (sources : List OutboundTagSource)
        → read_file path ≡ content s
        → file_sources read_file decode_json decode_yaml (content s) ≡ ok sources
        → FileTags path sources
    unfolding file_sources
    content_sound s sources e h = elim (Bool-cases (str_beq (trim_space s) [])) [
      | inl empty ↦
          blank s given e ((str_beq_iff (trim_space s) []).0 empty) (ground (arith, rw empty at h))
      | inr filled ↦
          let some_text : trim_space s ≢ [] =
            ground (arith, filled, str_beq_iff (trim_space s) []) in
          elim (Bool-cases (has_prefix (trim_space s) (codes "{"))) [
            | inl brace ↦
                let (m, d, q) = decoded_sound (decode_json s) sources (rw (filled, brace) at h) in
                decoded s m given e some_text (inl (brace, d)) q
            | inr other ↦
                let (m, d, q) = decoded_sound (decode_yaml s) sources (rw (filled, other) at h) in
                decoded s m given e some_text (inr (other, d)) q
          ]
    ]

    file_sound :
        (f : File) (sources : List OutboundTagSource)
        → read_file path ≡ f
        → file_sources read_file decode_json decode_yaml f ≡ ok sources
        → FileTags path sources
    unfolding file_sources
    file_sound missing sources e h = no_file given e (ground (arith, h))
    file_sound unreadable sources e h = absurd (cc)
    file_sound (content s) sources e h = content_sound s sources e h

  FileTags-complete :
      (path : Str) (sources : List OutboundTagSource)
      → FileTags path sources
      → collect_custom_config_outbound_tag_sources read_file decode_json decode_yaml path
        ≡ ok sources
  unfolding collect_custom_config_outbound_tag_sources file_sources
  FileTags-complete path sources (no_path p e) =
      ground (arith, p, e, str_beq_iff (trim_space path) [])
  FileTags-complete path sources (no_file p r e) =
      ground (arith, p, r, e, str_beq_iff (trim_space path) [])
  FileTags-complete path sources (blank s p r b e) =
      ground (arith, p, r, b, e, str_beq_iff (trim_space path) [], str_beq_iff (trim_space s) [])
  FileTags-complete path sources (decoded s m p r f (inl (brace, d)) e) =
      ground (
        arith,
        p,
        r,
        f,
        brace,
        d,
        e,
        str_beq_iff (trim_space path) [],
        str_beq_iff (trim_space s) [],
      )
  FileTags-complete path sources (decoded s m p r f (inr (other, d)) e) =
      ground (
        arith,
        p,
        r,
        f,
        other,
        d,
        e,
        str_beq_iff (trim_space path) [],
        str_beq_iff (trim_space s) [],
      )

  FileTags-sound :
      (path : Str) (sources : List OutboundTagSource)
      → collect_custom_config_outbound_tag_sources read_file decode_json decode_yaml path
        ≡ ok sources
      → FileTags path sources
  unfolding collect_custom_config_outbound_tag_sources
  FileTags-sound path sources h = elim (Bool-cases (str_beq (trim_space path) [])) [
    | inl empty ↦
        no_path ((str_beq_iff (trim_space path) []).0 empty) (ground (arith, rw empty at h))
    | inr filled ↦
        file_sound path (ground (arith, filled, str_beq_iff (trim_space path) [])) (read_file path)
          sources refl (rw filled at h)
  ]

  -- The tags of the local list and then those of the file.
  abbrev pub LocalTags : Str → Slice AnyMap → List OutboundTagSource → Type 0
  LocalTags path raw sources =
      (l : List OutboundTagSource) × FileTags path l
      × (sources ≡ tag_sources custom_outbound 0 (map items (items raw)) ++ l)

  pub collect_iff :
      (path : Str) (raw : Slice AnyMap) (sources : List OutboundTagSource)
      → (collect_additional_outbound_tag_sources read_file decode_json decode_yaml path raw
          ≡ ok sources)
        ↔ LocalTags path raw sources
  unfolding collect_additional_outbound_tag_sources collect_raw_outbound_tag_sources
  collect_iff path raw sources = (
    λ h.
        let (l, e, q) =
          bind-ok
            (collect_custom_config_outbound_tag_sources read_file decode_json decode_yaml path) _
            h in
        (l, FileTags-sound path l e, ground (arith, q)),
    λ h. rw (FileTags-complete path h.0 h.1, h.2) refl,
  )
