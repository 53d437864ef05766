-- ===== src/Prelude/Rank.antt =====
-- The place of a string in a sorted list: the number of strings below it.
use Prim.Native.Nat.{◌≤◌, ℕ, zero, suc}
use mathlib.Core.Path.{◌≡◌, refl, ◌∙◌, sym, ap, subst}
use mathlib.Core.Bool.{Bool, true, false}
use mathlib.Core.Logic.{inl, inr}
use mathlib.Core.List.{◌++◌, List, [], ◌∷◌}
use native.Mathlib.Omega.{arith}
use xboard_node_plus.Prelude.Tests.{Str, ltb, str_beq, str_beq_iff, if◌then◌else◌, Bool-cases}
use xboard_node_plus.Prelude.Maps.{Map, keys}
use xboard_node_plus.Prelude.Lists.{length, All, any, take}
use xboard_node_plus.Prelude.Sorting.{
  str_leb, str_leb_total, str_leb_antisym, str_leb_trans, place, sort,
}

-- The strings of a list that are below `s`.
unfoldable pub below : Str → List Str → ℕ
below s [] = 0
below s (t ∷ l) = if str_leb s t then below s l else suc (below s l)

abbrev pub is_in : Str → List Str → Bool
is_in s l = any (λ t. str_beq t s) l

below-place : (s t : Str) (l : List Str) → below s (place str_leb t l) ≡ below s (t ∷ l)
unfolding below place
below-place s t [] = refl
below-place s t (u ∷ l) = ground (arith, below-place s t l)

below-sort : (s : Str) (l : List Str) → below s (sort str_leb l) ≡ below s l
unfolding below sort
below-sort s [] = refl
below-sort s (t ∷ l) = ground (arith, below-place s t (sort str_leb l), below-sort s l)

is_in-place : (s t : Str) (l : List Str) → is_in s (place str_leb t l) ≡ is_in s (t ∷ l)
unfolding place
is_in-place s t [] = refl
is_in-place s t (u ∷ l) = ground (arith, is_in-place s t l)

is_in-sort : (s : Str) (l : List Str) → is_in s (sort str_leb l) ≡ is_in s l
unfolding sort
is_in-sort s [] = refl
is_in-sort s (t ∷ l) = ground (arith, is_in-place s t (sort str_leb l), is_in-sort s l)

abbrev IsLower : Str → List Str → Type 0
IsLower s = All (λ t. str_leb s t ≡ true)

abbrev IsSorted : List Str → Type 0
IsSorted [] = Unit
IsSorted (s ∷ l) = IsLower s l × IsSorted l

IsLower-trans : (s t : Str) (l : List Str) → str_leb s t ≡ true → IsLower t l → IsLower s l
IsLower-trans s t [] e h = tt
IsLower-trans s t (u ∷ l) e h = (str_leb_trans s t u e h.0, IsLower-trans s t l e h.1)

IsLower-place :
    (s t : Str) (l : List Str) → str_leb s t ≡ true → IsLower s l → IsLower s (place str_leb t l)
unfolding place
IsLower-place s t [] e h = (e, tt)
IsLower-place s t (u ∷ l) e h = elim (Bool-cases (str_leb t u)) [
  | inl low ↦ rw low (e, h)
  | inr high ↦ rw high (h.0, IsLower-place s t l e h.1)
]

place-IsSorted : (t : Str) (l : List Str) → IsSorted l → IsSorted (place str_leb t l)
unfolding place
place-IsSorted t [] h = (tt, tt)
place-IsSorted t (u ∷ l) h = elim (Bool-cases (str_leb t u)) [
  | inl low ↦ rw low ((low, IsLower-trans t u l low h.0), h)
  | inr high ↦ rw high (IsLower-place u t l (str_leb_total t u high) h.0, place-IsSorted t l h.1)
]

sort-IsSorted : (l : List Str) → IsSorted (sort str_leb l)
unfolding sort
sort-IsSorted [] = tt
sort-IsSorted (t ∷ l) = place-IsSorted t (sort str_leb l) (sort-IsSorted l)

below-IsLower : (s : Str) (l : List Str) → IsLower s l → below s l ≡ 0
unfolding below
below-IsLower s [] h = refl
below-IsLower s (t ∷ l) h = ground (arith, h.0, below-IsLower s l h.1)

IsLower-is_in : (s t : Str) (l : List Str) → IsLower t l → is_in s l ≡ true → str_leb t s ≡ true
IsLower-is_in s t [] h k = ground (arith, k)
IsLower-is_in s t (u ∷ l) h k = ground (arith, h.0, k, (str_beq_iff u s).0, IsLower-is_in s t l h.1)

str_leb_refl : (s : Str) → str_leb s s ≡ true
str_leb_refl s = ground (arith, str_leb_total s s)

is_in-take :
    (s : Str) (n : ℕ) (l : List Str)
    → IsSorted l
    → is_in s l ≡ true
    → is_in s (take n l) ≡ ltb (below s l) n
unfolding below
is_in-take s zero l h k = ground arith
is_in-take s (suc n) [] h k = ground (arith, k)
is_in-take s (suc n) (t ∷ l) h k = elim (Bool-cases (str_beq t s)) [
  | inl same ↦
      let e = (str_beq_iff t s).0 same in
      let none_below = below-IsLower s l (subst (λ t. IsLower t l) e h.0) in
      let least : str_leb s t ≡ true = subst (λ t. str_leb s t ≡ true) (sym e) (str_leb_refl s) in
      ground (arith, same, least, none_below)
  | inr other ↦
      let later : is_in s l ≡ true = ground (arith, k, other) in
      let lower = IsLower-is_in s t l h.0 later in
      let strict : str_leb s t ≡ false =
        ground (arith, other, lower, str_leb_antisym t s lower, (str_beq_iff t s).1) in
      ground (arith, other, strict, is_in-take s n l h.1 later)
]

is_in-take-sort :
    (s : Str) (n : ℕ) (l : List Str)
    → is_in s l ≡ true
    → is_in s (take n (sort str_leb l)) ≡ ltb (below s l) n
is_in-take-sort s n l k =
    is_in-take s n (sort str_leb l) (sort-IsSorted l) (is_in-sort s l ∙ k)
    ∙ ap (λ i. ltb i n) (below-sort s l)

is_in-last : (s : Str) (l : List Str) → is_in s (l ++ s ∷ []) ≡ true
is_in-last s [] = rw ((str_beq_iff s s).1 refl) refl
is_in-last s (t ∷ l) = ground (arith, is_in-last s l)

below-last : (s : Str) (l : List Str) → below s (l ++ s ∷ []) ≡ below s l
unfolding below
below-last s [] = ground (arith, str_leb_total s s)
below-last s (t ∷ l) = ground (arith, below-last s l)

-- A string is among the first `n` of the sorted list with it exactly when fewer than `n` are below.
pub is_in-first :
    (s : Str) (n : ℕ) (l : List Str)
    → is_in s (take n (sort str_leb (l ++ s ∷ []))) ≡ ltb (below s l) n
is_in-first s n l =
    is_in-take-sort s n (l ++ s ∷ []) (is_in-last s l) ∙ ap (λ i. ltb i n) (below-last s l)

pub below-keys {κ} : {V : Type κ} (s : Str) (m : Map Str V) → below s (keys m) ≤ length m
unfolding below
below-keys s [] = omega arith
below-keys s ((k, v) ∷ m) = ground (arith, below-keys s m)
