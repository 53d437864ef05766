-- ===== src/Prelude/SortOrder.antt =====
-- A sorted list does not depend on the order of the list that was sorted: what makes a Go program
-- that sorts the keys of a map independent of the map's iteration order.
use mathlib.Core.Path.{◌≡◌, refl, ap, subst, ◌∙◌}
use mathlib.Core.Bool.{Bool, true, false}
use mathlib.Core.List.{List, [], ◌∷◌, Permᴰ}
use native.Mathlib.Omega.{arith}
use Prim.Native.Nat.{ℕ, ◌<◌}
use xboard_node_plus.Prelude.Tests.{Str}
use xboard_node_plus.Prelude.Lists.{All}
use xboard_node_plus.Prelude.Words.{word}
use xboard_node_plus.Prelude.Sorting.{
  int_leb, str_leb, str_leb_total, str_leb_antisym, str_leb_trans, place, sort,
}

module _ {A : Type 0} (le : A → A → Bool) (P : A → Type 0)
    (total : (a b : A) → le a b ≡ false → le b a ≡ true)
    (antisym : (a b : A) → P a → P b → le a b ≡ true → le b a ≡ true → a ≡ b)
    (transitive : (a b c : A) → le a b ≡ true → le b c ≡ true → le a c ≡ true) where
  place_comm :
      (a b : A) (l : List A) → P a → P b → place le a (place le b l) ≡ place le b (place le a l)
  unfolding place
  place_comm a b [] p q = ground (arith, total a b, total b a, antisym a b p q)
  place_comm a b (c ∷ l) p q = ground (
    arith,
    total a b,
    total b a,
    antisym a b p q,
    transitive a b c,
    transitive b a c,
    total a c,
    total b c,
    place_comm a b l p q,
  )

  All-Perm : {l m : List A} → Permᴰ l m → All P l → All P m
  All-Perm Permᴰ.nil h = tt
  All-Perm (Permᴰ.cons {a} {b} e p) h = (subst P e h.0, All-Perm p h.1)
  All-Perm (Permᴰ.swap e f) h = (subst P f h.1.0, (subst P e h.0, h.1.1))
  All-Perm (Permᴰ.trans p q) h = All-Perm q (All-Perm p h)

  pub sort-Perm : {l m : List A} → Permᴰ l m → All P l → sort le l ≡ sort le m
  unfolding sort
  sort-Perm Permᴰ.nil h = refl
  sort-Perm (Permᴰ.cons {l₁ = l} e p) h =
      ap (λ a. place le a (sort le l)) e ∙ ap (place le _) (sort-Perm p h.1)
  sort-Perm (Permᴰ.swap {a = a} {b = b} {a' = a'} {b' = b'} {l = l} e f) h =
      place_comm a b (sort le l) h.0 h.1.0
      ∙ (ap (λ b. place le b (place le a (sort le l))) f
          ∙ ap (λ a. place le a' (place le a (sort le l))) e)
  sort-Perm (Permᴰ.trans p q) h = sort-Perm p h ∙ sort-Perm q (All-Perm p h)

-- The two orders of the program: of byte strings, and of `int` patterns.
pub sort-Perm_str : {l m : List Str} → Permᴰ l m → sort str_leb l ≡ sort str_leb m
sort-Perm_str {l} p =
    sort-Perm str_leb (λ s. Unit) str_leb_total (λ s t u v. str_leb_antisym s t) str_leb_trans p
      (All_unit l)
  where
    All_unit : (l : List Str) → All (λ s. Unit {0}) l
    All_unit [] = tt
    All_unit (s ∷ l) = (tt, All_unit l)

pub sort-Perm_int :
    {l m : List ℕ} → Permᴰ l m → All (λ i. i < word) l → sort int_leb l ≡ sort int_leb m
sort-Perm_int p h =
    sort-Perm int_leb (λ i. i < word) (λ a b. ground arith) (λ a b p q h k. ground arith)
      (λ a b c. ground arith) p h
