-- ===== src/Build/CustomFile.antt =====
-- What a custom configuration file says, and that LoadCustomConfig of internal/kernel/customcfg.go
-- reads it so.
use xboard_node_plus.Prelude.{
  ◌≡◌, ◌≢◌, ◌⊎◌, inl, inr, refl, true, false, Str, [], ◌∷◌, Option, none, some, Map, str_beq,
  str_beq_iff, trim_space, has_prefix, codes, arith, Bool-cases,
}
use xboard_node_plus.Model.Values.{Any}
use xboard_node_plus.Validation.Tags.{missing, unreadable, content}
use xboard_node_plus.Build.{M}
use xboard_node_plus.Build.Custom.{load_custom_config, merge_loaded, load_file}
use xboard_node_plus.Build.Library.{Library}

module _ (lib : Library) (path : Str) where
  -- A text is JSON when it begins with a brace, else YAML.
  abbrev pub Decodes : Str → Option (Map Str Any) → Type 0
  Decodes s m =
      ((has_prefix (trim_space s) (codes "{") ≡ true) × (lib.decode_json s ≡ m))
      ⊎ ((has_prefix (trim_space s) (codes "{") ≡ false) × (lib.decode_yaml s ≡ m))

  -- There is no file, or it cannot be read, is empty or is not of its format.
  pub data IsUnused : Type 0 where
    no_path : path ≡ [] → IsUnused
    no_file : lib.read_file path ≡ missing → IsUnused
    not_read : lib.read_file path ≡ unreadable → IsUnused
    no_text : lib.read_file path ≡ content [] → IsUnused
    not_decoded : (s : Str) → lib.read_file path ≡ content s → Decodes s none → IsUnused

  abbrev pub FileSays : Option (Map Str Any) → Type 0
  FileSays none = IsUnused
  FileSays (some m) =
      (s : Str) × (path ≢ []) × (s ≢ []) × (lib.read_file path ≡ content s) × Decodes s (some m)

  -- With the custom configuration, where there is one.
  abbrev pub merged : (Map Str Any → M → M) → Option (Map Str Any) → M → M
  merged merge none cfg = cfg
  merged merge (some m) cfg = merge m cfg

  module _ (merge : Map Str Any → M → M) (cfg : M) where
    Decodes-merged :
        (s : Str) (m : Option (Map Str Any))
        → s ≢ []
        → Decodes s m
        → merge_loaded merge (load_file lib (content s)) cfg ≡ merged merge m cfg
    Decodes-merged s none filled (inl (json, d)) = ground (arith, filled, str_beq_iff s [], json, d)
    Decodes-merged s none filled (inr (yaml, d)) = ground (arith, filled, str_beq_iff s [], yaml, d)
    Decodes-merged s (some m) filled (inl (json, d)) =
        ground (arith, filled, str_beq_iff s [], json, d)
    Decodes-merged s (some m) filled (inr (yaml, d)) =
        ground (arith, filled, str_beq_iff s [], yaml, d)

    file-merged :
        (m : Option (Map Str Any))
        → FileSays m
        → path ≢ []
        → merge_loaded merge (load_file lib (lib.read_file path)) cfg ≡ merged merge m cfg
    unfolding str_beq
    file-merged none (no_path e) given = absurd (given e)
    file-merged none (no_file e) given = rw e refl
    file-merged none (not_read e) given = rw e refl
    file-merged none (no_text e) given = rw e refl
    file-merged none (not_decoded [] e d) given = rw e refl
    file-merged none (not_decoded (b ∷ s) e d) given =
        rw e (Decodes-merged (b ∷ s) none (λ p. cc) d)
    file-merged (some m) (s, given, filled, e, d) path_given =
        rw e (Decodes-merged s (some m) filled d)

    pub merge_loaded-FileSays :
        (m : Option (Map Str Any))
        → FileSays m
        → merge_loaded merge (load_custom_config lib path) cfg ≡ merged merge m cfg
    unfolding load_custom_config
    merge_loaded-FileSays m says = elim (Bool-cases (str_beq path [])) [
      | inl blank ↦ rw blank (unused m says ((str_beq_iff path []).0 blank))
      | inr given ↦
          rw given (file-merged m says (λ e. ground (arith, e, given, str_beq_iff path [])))
    ]
      where
        unused : (m : Option (Map Str Any)) → FileSays m → path ≡ [] → cfg ≡ merged merge m cfg
        unused none says e = refl
        unused (some m) (s, given, filled, found, d) e = absurd (given e)
