-- ===== src/Tracker/Amounts.antt =====
-- Amounts of traffic in the maps of internal/tracker/tracker.go, and their addition in `int64`.
use mathlib.Core.Path.{subst}
use xboard_node_plus.Prelude.{
  ℕ, ◌-◌, ◌<◌, ◌≡◌, inl, inr, [], ◌∷◌, none, arith, Map, lookup, Distinct, or_else, if◌then◌else◌,
  leb, add64, half_word, word, ◌==◌, nat_eq, nat_beq_iff, lookup-insert, insert-Distinct,
  Bool-cases, ◌∙◌, sym,
}
use xboard_node_plus.Tracker.{Pair, zero_pair, delta, add_pair, add_pairs}

-- What a map of counters holds for a user.
abbrev pub amount : ℕ → Map ℕ Pair → Pair
amount uid m = or_else (lookup uid m) zero_pair

infixl 65 ◌⊕◌
abbrev pub ◌⊕◌ : Pair → Pair → Pair
p ⊕ q = (add64 p.0 q.0, add64 p.1 q.1)

-- A cumulative counter is a nonnegative `int64`, and an account is some `int64`.
abbrev pub IsCounter : Pair → Type 0
IsCounter p = (p.0 < half_word) × (p.1 < half_word)

abbrev pub IsWord : Pair → Type 0
IsWord p = (p.0 < word) × (p.1 < word)

-- The bytes between two readings of a counter: the difference, or the whole reading when the counter
-- fell, since it then began again at 0.
abbrev pub gain : ℕ → ℕ → ℕ
gain cum prev = if leb prev cum then cum - prev else cum

abbrev pub gain_pair : Pair → Pair → Pair
gain_pair cum prev = (gain cum.0 prev.0, gain cum.1 prev.1)

pub delta-gain :
    (cum prev : ℕ) → cum < half_word → prev < half_word → delta cum prev ≡ gain cum prev
unfolding delta
delta-gain cum prev h k = ground arith

pub ⊕_zero : (p : Pair) → IsWord p → (p ⊕ zero_pair) ≡ p
⊕_zero p h = ground arith

pub ⊕_assoc : (p q r : Pair) → (p ⊕ q ⊕ r) ≡ (p ⊕ (q ⊕ r))
⊕_assoc p q r = ground arith

pub ⊕_comm : (p q : Pair) → (p ⊕ q) ≡ (q ⊕ p)
⊕_comm p q = ground arith

pub ⊕-IsWord : (p q : Pair) → IsWord (p ⊕ q)
⊕-IsWord p q = omega arith

pub amount-add_pair :
    (k j : ℕ) (d : Pair) (m : Map ℕ Pair)
    → amount j (add_pair k d m) ≡ (if k == j then amount j m ⊕ d else amount j m)
unfolding add_pair
amount-add_pair k j d m = ground (arith, lookup-insert k j (amount k m ⊕ d) m)

pub add_pairs-Distinct : (ds m : Map ℕ Pair) → Distinct m → Distinct (add_pairs ds m)
unfolding add_pairs add_pair
add_pairs-Distinct [] m h = h
add_pairs-Distinct ((k, d) ∷ ds) m h = add_pairs-Distinct ds _ (insert-Distinct k _ m h)

pub amount-add_pairs :
    (j : ℕ) (ds m : Map ℕ Pair)
    → Distinct ds
    → IsWord (amount j m)
    → amount j (add_pairs ds m) ≡ (amount j m ⊕ amount j ds)
unfolding add_pairs lookup
amount-add_pairs j [] m d w = sym (⊕_zero (amount j m) w)
amount-add_pairs j ((k, v) ∷ ds) m d w = elim (Bool-cases (k == j)) [
  | inl same ↦
      let e = (nat_beq_iff k j).0 same in
      let none_left : lookup j ds ≡ none = subst (λ i. lookup i ds ≡ none) e d.0 in
      amount-add_pairs j ds (add_pair k v m) d.1 (ground (arith, amount-add_pair k j v m, same, w))
      ∙ ground (
        arith,
        amount-add_pair k j v m,
        same,
        none_left,
        ⊕-IsWord (amount j m) v,
        ⊕_zero (amount j m ⊕ v),
      )
  | inr other ↦
      amount-add_pairs j ds (add_pair k v m) d.1 (ground (arith, amount-add_pair k j v m, other, w))
      ∙ ground (arith, amount-add_pair k j v m, other)
]
