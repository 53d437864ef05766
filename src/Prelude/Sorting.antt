-- ===== src/Prelude/Sorting.antt =====
-- `sort.Strings` and `sort.Ints`: the sorted list, which is one list for a total order, here by
-- insertion.
use Prim.Native.Nat.{ℕ}
use mathlib.Core.Path.{◌≡◌, refl}
use mathlib.Core.Bool.{Bool, true, false}
use mathlib.Core.List.{List, [], ◌∷◌}
use native.Mathlib.Omega.{arith}
use xboard_node_plus.Prelude.Tests.{Str, ltb, leb, nat_beq, if◌then◌else◌}
use xboard_node_plus.Prelude.Words.{add64, half_word}

-- `a <= b` of two `int` patterns
abbrev pub int_leb : ℕ → ℕ → Bool
int_leb a b = leb (add64 a half_word) (add64 b half_word)

-- `a <= b` of two strings, byte by byte
unfoldable pub str_leb : Str → Str → Bool
str_leb [] t = true
str_leb (a ∷ s) [] = false
str_leb (a ∷ s) (b ∷ t) = if nat_beq a b then str_leb s t else ltb a b

pub str_leb_total : (s t : Str) → str_leb s t ≡ false → str_leb t s ≡ true
unfolding str_leb
str_leb_total [] t h = ground arith
str_leb_total (a ∷ s) [] h = refl
str_leb_total (a ∷ s) (b ∷ t) h = ground (arith, str_leb_total s t)

pub str_leb_antisym : (s t : Str) → str_leb s t ≡ true → str_leb t s ≡ true → s ≡ t
unfolding str_leb
str_leb_antisym [] [] h k = refl
str_leb_antisym [] (b ∷ t) h k = ground arith
str_leb_antisym (a ∷ s) [] h k = ground arith
str_leb_antisym (a ∷ s) (b ∷ t) h k = ground (arith, str_leb_antisym s t)

pub str_leb_trans : (s t u : Str) → str_leb s t ≡ true → str_leb t u ≡ true → str_leb s u ≡ true
unfolding str_leb
str_leb_trans [] t u h k = refl
str_leb_trans (a ∷ s) [] u h k = ground arith
str_leb_trans (a ∷ s) (b ∷ t) [] h k = ground arith
str_leb_trans (a ∷ s) (b ∷ t) (c ∷ u) h k = ground (arith, str_leb_trans s t u)

module _ {ℓ} {A : Type ℓ} (le : A → A → Bool) where
  unfoldable pub place : A → List A → List A
  place a [] = a ∷ []
  place a (b ∷ l) = if le a b then a ∷ b ∷ l else b ∷ place a l

  unfoldable pub sort : List A → List A
  unfolding place
  sort [] = []
  sort (a ∷ l) = place a (sort l)
