-- ===== src/Prelude/Splitting.antt =====
-- strings.Split by one byte: which strings have one part and which have two.
use Prim.Native.Nat.{ℕ}
use mathlib.Core.Path.{◌∙◌, sym, ◌≡◌, refl}
use mathlib.Core.Logic.{◌≢◌, inl, inr}
use mathlib.Core.Bool.{true, false}
use mathlib.Core.List.{List, [], ◌∷◌, ◌++◌}
use native.Mathlib.Omega.{arith}
use xboard_node_plus.Prelude.Tests.{Str, nat_beq, Bool-cases}
use xboard_node_plus.Prelude.Text.{contains_byte}
use xboard_node_plus.Prelude.Numbers.{split, join_head}

module _ (sep : ℕ) where
  pub split-non_empty : (s : Str) → split sep s ≢ []
  unfolding split
  split-non_empty [] h = cc
  split-non_empty (c ∷ s) h = ground arith

  join_head-parts :
      (c : ℕ) (l : List Str) {b : Str} {r : List Str}
      → l ≢ []
      → join_head c l ≡ b ∷ r
      → (p : Str) × (b ≡ c ∷ p) × (l ≡ p ∷ r)
  join_head-parts c [] filled h = absurd (filled refl)
  join_head-parts c (p ∷ ps) filled h = (p, cc, cc)

  split-same : (c : ℕ) (s : Str) → nat_beq c sep ≡ true → split sep (c ∷ s) ≡ [] ∷ split sep s
  unfolding split
  split-same c s h = rw (h)

  split-other :
      (c : ℕ) (s : Str) → nat_beq c sep ≡ false → split sep (c ∷ s) ≡ join_head c (split sep s)
  unfolding split
  split-other c s h = rw (h)

  pub split-one : (s b : Str) → split sep s ≡ b ∷ [] → (s ≡ b) × (contains_byte sep b ≡ false)
  unfolding split
  split-one [] b h = ground arith
  split-one (c ∷ s) b h = elim (Bool-cases (nat_beq c sep)) [
    | inl e ↦ absurd (ground (arith, sym (split-same c s e) ∙ h, split-non_empty s))
    | inr e ↦
        let (p, e1, e2) =
          join_head-parts c (split sep s) (split-non_empty s) (sym (split-other c s e) ∙ h) in
        let (i1, i2) = split-one s p e2 in ground (arith, e, e1, i1, i2)
  ]

  pub split-two :
      (s a b : Str)
      → split sep s ≡ a ∷ b ∷ []
      → (s ≡ a ++ (sep ∷ b)) × (contains_byte sep a ≡ false) × (contains_byte sep b ≡ false)
  unfolding split
  split-two [] a b h = cc
  split-two (c ∷ s) a b h = elim (Bool-cases (nat_beq c sep)) [
    | inl e ↦
        let g = sym (split-same c s e) ∙ h in
        let (i1, i2) = split-one s b (cc) in ground (arith, e, g, i1, i2)
    | inr e ↦
        let (p, e1, e2) =
          join_head-parts c (split sep s) (split-non_empty s) (sym (split-other c s e) ∙ h) in
        let (i1, i2, i3) = split-two s p b e2 in ground (arith, e, e1, i1, i2, i3)
  ]

  pub split-none : (s : Str) → contains_byte sep s ≡ false → split sep s ≡ s ∷ []
  unfolding split
  split-none [] h = refl
  split-none (c ∷ s) h = ground (arith, split-none s)

  pub split-at :
      (a b : Str)
      → contains_byte sep a ≡ false
      → contains_byte sep b ≡ false
      → split sep (a ++ (sep ∷ b)) ≡ a ∷ b ∷ []
  unfolding split
  split-at [] b h g = ground (arith, split-none b g)
  split-at (c ∷ a) b h g = ground (arith, split-at a b)

  pub contains-at : (a b : Str) → contains_byte sep (a ++ (sep ∷ b)) ≡ true
  contains-at [] b = ground arith
  contains-at (c ∷ a) b = ground (arith, contains-at a b)
