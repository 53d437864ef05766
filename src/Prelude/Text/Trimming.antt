-- ===== src/Prelude/Text/Trimming.antt =====
-- strings.TrimSpace leaves nothing for a second one.
use mathlib.Core.Path.{◌≡◌, refl, sym, ap, ◌∙◌}
use mathlib.Core.Logic.{inl, inr}
use mathlib.Core.Bool.{Bool, false, ◌||◌}
use mathlib.Core.List.{[], ◌∷◌, ◌++◌, reverse, reverse-append, reverse-reverse}
use native.Mathlib.Omega.{arith}
use xboard_node_plus.Prelude.Tests.{Str, Bool-cases}
use xboard_node_plus.Prelude.Text.{ascii_space, space2, space3, trim_left, trim_right, trim_space}

begins : Str → Bool
begins [] = false
begins (a ∷ []) = ascii_space a
begins (a ∷ b ∷ []) = ascii_space a || space2 a b
begins (a ∷ b ∷ c ∷ s) = ascii_space a || (space2 a b || space3 a b c)

-- The same for the bytes in reverse.
ends : Str → Bool
ends [] = false
ends (a ∷ []) = ascii_space a
ends (b ∷ a ∷ []) = ascii_space b || space2 a b
ends (c ∷ b ∷ a ∷ s) = ascii_space c || (space2 b c || space3 a b c)

begins-trim_left : (s : Str) → begins (trim_left s) ≡ false
unfolding trim_left begins
begins-trim_left [] = refl
begins-trim_left (a ∷ []) = ground arith
begins-trim_left (a ∷ b ∷ []) = ground (arith, begins-trim_left (b ∷ []))
begins-trim_left (a ∷ b ∷ c ∷ s) =
    ground (arith, begins-trim_left (b ∷ c ∷ s), begins-trim_left (c ∷ s), begins-trim_left s)

ends-trim_right : (s : Str) → ends (trim_right s) ≡ false
unfolding trim_right ends
ends-trim_right [] = refl
ends-trim_right (a ∷ []) = ground arith
ends-trim_right (b ∷ a ∷ []) = ground (arith, ends-trim_right (a ∷ []))
ends-trim_right (c ∷ b ∷ a ∷ s) =
    ground (arith, ends-trim_right (b ∷ a ∷ s), ends-trim_right (a ∷ s), ends-trim_right s)

trim_left-fixed : (s : Str) → begins s ≡ false → trim_left s ≡ s
unfolding trim_left begins
trim_left-fixed [] h = refl
trim_left-fixed (a ∷ []) h = ground arith
trim_left-fixed (a ∷ b ∷ []) h = ground arith
trim_left-fixed (a ∷ b ∷ c ∷ s) h = ground arith

trim_right-fixed : (s : Str) → ends s ≡ false → trim_right s ≡ s
unfolding trim_right ends
trim_right-fixed [] h = refl
trim_right-fixed (a ∷ []) h = ground arith
trim_right-fixed (b ∷ a ∷ []) h = ground arith
trim_right-fixed (c ∷ b ∷ a ∷ s) h = ground arith

begins-prefix : (p q : Str) → begins (p ++ q) ≡ false → begins p ≡ false
unfolding begins
begins-prefix [] q h = refl
begins-prefix (a ∷ []) [] h = h
begins-prefix (a ∷ []) (b ∷ []) h = ground arith
begins-prefix (a ∷ []) (b ∷ c ∷ q) h = ground arith
begins-prefix (a ∷ b ∷ []) [] h = h
begins-prefix (a ∷ b ∷ []) (c ∷ q) h = ground arith
begins-prefix (a ∷ b ∷ c ∷ p) q h = h

-- trim_right takes bytes from the front.
taken : (s : Str) → (y : Str) × (s ≡ y ++ trim_right s)
unfolding trim_right
taken [] = ([], refl)
taken (a ∷ []) = elim (Bool-cases (ascii_space a)) [
  | inl e ↦ (a ∷ [], rw e refl)
  | inr e ↦ ([], rw e refl)
]
taken (b ∷ a ∷ []) = elim (Bool-cases (ascii_space b)) [
  | inl e ↦ let (y, h) = taken (a ∷ []) in (b ∷ y, rw e (ap (λ l. b ∷ l) h))
  | inr e ↦ elim (Bool-cases (space2 a b)) [
    | inl f ↦ (b ∷ a ∷ [], rw (e, f) refl)
    | inr f ↦ ([], rw (e, f) refl)
  ]
]
taken (c ∷ b ∷ a ∷ s) = elim (Bool-cases (ascii_space c)) [
  | inl e ↦ let (y, h) = taken (b ∷ a ∷ s) in (c ∷ y, rw e (ap (λ l. c ∷ l) h))
  | inr e ↦ elim (Bool-cases (space2 b c)) [
    | inl f ↦ let (y, h) = taken (a ∷ s) in (c ∷ b ∷ y, rw (e, f) (ap (λ l. c ∷ b ∷ l) h))
    | inr f ↦ elim (Bool-cases (space3 a b c)) [
      | inl g ↦ let (y, h) = taken s in (c ∷ b ∷ a ∷ y, rw (e, f, g) (ap (λ l. c ∷ b ∷ a ∷ l) h))
      | inr g ↦ ([], rw (e, f, g) refl)
    ]
  ]
]

begins-trim_space : (s : Str) → begins (trim_space s) ≡ false
unfolding trim_space
begins-trim_space s =
    let (y, h) = taken (reverse (trim_left s)) in
    begins-prefix (reverse (trim_right (reverse (trim_left s)))) (reverse y) (
      ap begins (
        sym (reverse-append y (trim_right (reverse (trim_left s))))
        ∙ sym (ap reverse h)
        ∙ reverse-reverse (trim_left s))
      ∙ begins-trim_left s)

pub trim_space-trim_space : (s : Str) → trim_space (trim_space s) ≡ trim_space s
unfolding trim_space
trim_space-trim_space s =
    let t = trim_right (reverse (trim_left s)) in
    ap (λ l. reverse (trim_right (reverse l))) (trim_left-fixed (reverse t) (begins-trim_space s))
    ∙ ap (λ l. reverse (trim_right l)) (reverse-reverse t)
    ∙ ap reverse (trim_right-fixed t (ends-trim_right (reverse (trim_left s))))
