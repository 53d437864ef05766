-- ===== src/Prelude/Maps.antt =====
-- Go maps as association lists: the order of the list is the order of one iteration. An assignment
-- keeps the place of a key that is there and appends a new one; a theorem about every list is one
-- about every order of iteration.
use mathlib.Core.Path.{◌≡◌, refl}
use mathlib.Core.Logic.{inl, inr}
use mathlib.Core.Bool.{Bool}
use mathlib.Core.List.{List, [], ◌∷◌, map}
use mathlib.Core.Option.{Option, none, some}
use native.Mathlib.Omega.{arith}
use xboard_node_plus.Prelude.Tests.{Eq, ◌==◌, if◌then◌else◌, is_some, Bool-cases}

abbrev pub Map {ℓ κ} : Type ℓ → Type κ → Type (ℓ ⊔ κ)
Map K V = List (K × V)

abbrev pub keys {ℓ κ} : {K : Type ℓ} {V : Type κ} → Map K V → List K
keys = map (λ e. e.0)

module _ {ℓ κ} {K : Type ℓ} {V : Type κ} ⦃e : Eq K⦄ where
  -- m[k], with its presence
  unfoldable pub lookup : K → Map K V → Option V
  lookup k [] = none
  lookup k ((j, v) ∷ m) = if j == k then some v else lookup k m

  -- _, ok := m[k]
  abbrev pub has : K → Map K V → Bool
  has k m = is_some (lookup k m)

  -- m[k] = v
  unfoldable pub insert : K → V → Map K V → Map K V
  insert k v [] = (k, v) ∷ []
  insert k v ((j, w) ∷ m) = if j == k then (j, v) ∷ m else (j, w) ∷ insert k v m

  -- delete(m, k)
  unfoldable pub remove : K → Map K V → Map K V
  remove k [] = []
  remove k ((j, v) ∷ m) = let rest = remove k m in if j == k then rest else (j, v) ∷ rest

  pub lookup-insert :
      (k i : K) (new : V) (m : Map K V)
      → lookup i (insert k new m) ≡ (if k == i then some new else lookup i m)
  unfolding lookup insert
  lookup-insert k i new [] = refl
  lookup-insert k i new ((j, old) ∷ rest) =
      ground (arith, lookup-insert k i new rest, e.beq_iff k i, e.beq_iff j i, e.beq_iff j k)

  pub lookup-remove :
      (k j : K) (m : Map K V) → lookup j (remove k m) ≡ (if k == j then none else lookup j m)
  unfolding lookup remove
  lookup-remove k j [] = ground arith
  lookup-remove k j ((i, w) ∷ m) =
      ground (arith, e.beq_iff k j, e.beq_iff i k, e.beq_iff i j, lookup-remove k j m)

  -- No key stands twice, as in every Go map.
  abbrev pub Distinct : Map K V → Type κ
  Distinct [] = Unit
  Distinct ((k, v) ∷ m) = (lookup k m ≡ none) × Distinct m

  pub insert-Distinct : (k : K) (v : V) (m : Map K V) → Distinct m → Distinct (insert k v m)
  unfolding insert lookup
  insert-Distinct k v [] d = (refl, tt)
  insert-Distinct k v ((j, w) ∷ m) d = elim (Bool-cases (j == k)) [
    | inl same ↦ rw same d
    | inr other ↦ rw other (
      ground (arith, other, d.0, lookup-insert k j v m, e.beq_iff j k, e.beq_iff k j),
      insert-Distinct k v m d.1,
    )
  ]

  pub remove-Distinct : (k : K) (m : Map K V) → Distinct m → Distinct (remove k m)
  unfolding remove
  remove-Distinct k [] d = tt
  remove-Distinct k ((j, w) ∷ m) d = elim (Bool-cases (j == k)) [
    | inl same ↦ rw same (remove-Distinct k m d.1)
    | inr other ↦ rw other (ground (arith, d.0, lookup-remove k j m), remove-Distinct k m d.1)
  ]

-- map[K]struct{}
abbrev pub KeySet {ℓ} : Type ℓ → Type ℓ
KeySet K = Map K (Unit {0})
