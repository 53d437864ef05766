-- ===== src/Model/Values.antt =====
-- Dynamic values: what `any` holds after decoding JSON or YAML. An `int` is its 64-bit pattern and a
-- `float64` its bits.
use xboard_node_plus.Prelude.{ℕ, Bool, List, [], ◌∷◌, Option, none, some, map, Map, Str}

mutual
  pub data Any : Type 0 where
    null : Any
    bool : Bool → Any
    int : ℕ → Any
    float : ℕ → Any
    text : Str → Any
    arr : Items → Any
    obj : Fields → Any

  pub data Items : Type 0 where
    nil : Items
    cons : Any → Items → Items

  pub data Fields : Type 0 where
    end : Fields
    field : Str → Any → Fields → Fields

-- []A, where `none` is nil
abbrev pub Slice {ℓ} : Type ℓ → Type ℓ
Slice A = Option (List A)

-- map[string]any, where `none` is nil
abbrev pub AnyMap : Type 0
AnyMap = Option (Map Str Any)

-- The elements that `range` meets: none for nil.
abbrev pub items {ℓ} : {A : Type ℓ} → Slice A → List A
items none = []
items (some l) = l

-- cloneStringSlice and cloneAnyMap: a copy, nil for what is empty.
abbrev pub clone_nonempty {ℓ} : {A : Type ℓ} → Slice A → Slice A
clone_nonempty none = none
clone_nonempty (some []) = none
clone_nonempty (some (x ∷ l)) = some (x ∷ l)

abbrev pub clone_map_slice : Slice AnyMap → Slice AnyMap
clone_map_slice none = none
clone_map_slice (some []) = none
clone_map_slice (some (x ∷ l)) = some (clone_nonempty x ∷ map clone_nonempty l)
