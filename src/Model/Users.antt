-- ===== src/Model/Users.antt =====
-- Lists of users read as tables by ID: the vocabulary in which the user updates are specified.
use mathlib.Core.Path.{subst}
use xboard_node_plus.Prelude.{
  true, KeySet, has, is_some, ◌||◌, ℕ, ◌≡◌, refl, ap, inl, inr, Bool, List, [], ◌∷◌, ◌++◌, Option,
  none, some, map, arith, Map, lookup, insert, Distinct, All, filter, ◌==◌, nat_eq, nat_beq_iff,
  if◌then◌else◌, lookup-insert, insert-Distinct, Bool-cases,
}
use xboard_node_plus.Model.{UserSpec}

-- The last user of the list with this ID.
abbrev pub user_at : ℕ → List UserSpec → Option UserSpec
user_at j [] = none
user_at j (u ∷ l) = elim (user_at j l) [
  | some v ↦ some v
  | none ↦ if u.id == j then some u else none
]

-- `for _, u := range users { m[u.ID] = u }`
unfoldable pub by_id : List UserSpec → Map ℕ UserSpec → Map ℕ UserSpec
by_id [] m = m
by_id (u ∷ l) m = by_id l (insert u.id u m)

-- `for _, u := range delta { set[u.ID] = struct{}{} }`
unfoldable pub id_set : List UserSpec → KeySet ℕ → KeySet ℕ
id_set [] m = m
id_set (u ∷ l) m = id_set l (insert u.id tt m)

-- `for _, u := range m { out = append(out, u) }`
abbrev pub values : Map ℕ UserSpec → List UserSpec
values = map (λ e. e.1)

abbrev pub or_at : Option UserSpec → Option UserSpec → Option UserSpec
or_at (some u) o = some u
or_at none o = o

pub lookup-by_id :
    (j : ℕ) (l : List UserSpec) (m : Map ℕ UserSpec)
    → lookup j (by_id l m) ≡ or_at (user_at j l) (lookup j m)
unfolding by_id
lookup-by_id j [] m = refl
lookup-by_id j (u ∷ l) m =
    ground (arith, lookup-by_id j l (insert u.id u m), lookup-insert u.id j u m)

abbrev pub IsKeyed : Map ℕ UserSpec → Type 0
IsKeyed m = Distinct m × All (λ e. e.1.id ≡ e.0) m

insert-All :
    (k : ℕ) (u : UserSpec) (m : Map ℕ UserSpec)
    → u.id ≡ k
    → All (λ e. e.1.id ≡ e.0) m
    → All (λ e. e.1.id ≡ e.0) (insert k u m)
unfolding insert
insert-All k u [] e a = (e, tt)
insert-All k u ((j, w) ∷ m) e a = elim (Bool-cases (j == k)) [
  | inl same ↦ rw same (ground (arith, (nat_beq_iff j k).0 same, e), a.1)
  | inr other ↦ rw other (a.0, insert-All k u m e a.1)
]

pub by_id-IsKeyed : (l : List UserSpec) (m : Map ℕ UserSpec) → IsKeyed m → IsKeyed (by_id l m)
unfolding by_id
by_id-IsKeyed [] m h = h
by_id-IsKeyed (u ∷ l) m h =
    by_id-IsKeyed l (insert u.id u m) (insert-Distinct u.id u m h.0, insert-All u.id u m refl h.1)

pub user_at-values : (j : ℕ) (m : Map ℕ UserSpec) → IsKeyed m → user_at j (values m) ≡ lookup j m
unfolding lookup
user_at-values j [] h = refl
user_at-values j ((k, u) ∷ m) h =
    let rest = user_at-values j m (h.0.1, h.1.1) in
    elim (Bool-cases (k == j)) [
      | inl same ↦
          let e = (nat_beq_iff k j).0 same in
          let none_left : lookup j m ≡ none = subst (λ i. lookup i m ≡ none) e h.0.0 in
          ground (arith, rest, none_left, h.1.0, same)
      | inr other ↦ ground (arith, rest, h.1.0, other)
    ]

pub user_at-append :
    (j : ℕ) (l r : List UserSpec) → user_at j (l ++ r) ≡ or_at (user_at j r) (user_at j l)
user_at-append j [] r = ground arith
user_at-append j (u ∷ l) r = ground (arith, user_at-append j l r)

pub user_at_id : (j : ℕ) (l : List UserSpec) (u : UserSpec) → user_at j l ≡ some u → u.id ≡ j
user_at_id j [] u h = ground arith
user_at_id j (v ∷ l) u h = ground (arith, user_at_id j l u)

-- A filter that depends on the ID alone.
pub user_at-filter :
    (p : ℕ → Bool) (j : ℕ) (l : List UserSpec)
    → user_at j (filter (λ u. p u.id) l) ≡ (if p j then user_at j l else none)
user_at-filter p j [] = ground arith
user_at-filter p j (u ∷ l) =
    let rest = user_at-filter p j l in
    elim (Bool-cases (p u.id)) [
      | inl keep ↦ rw keep (ground (arith, rest, ap p {x = u.id} {y = j}, keep))
      | inr drop ↦ rw drop (ground (arith, rest, ap p {x = u.id} {y = j}, drop))
    ]

-- The set of the IDs of a list holds those of its users.
pub lookup-id_set :
    (j : ℕ) (l : List UserSpec) (m : KeySet ℕ)
    → has j (id_set l m) ≡ (is_some (user_at j l) || has j m)
unfolding id_set
lookup-id_set j [] m = refl
lookup-id_set j (u ∷ l) m =
    ground (arith, lookup-id_set j l (insert u.id tt m), lookup-insert u.id j tt m)

-- No ID stands twice.
abbrev pub DistinctIds : List UserSpec → Type 0
DistinctIds [] = Unit {0}
DistinctIds (u ∷ l) = (user_at u.id l ≡ none) × DistinctIds l

-- Any filter, where no ID stands twice.
pub user_at-filter_distinct :
    (p : UserSpec → Bool) (j : ℕ) (l : List UserSpec)
    → DistinctIds l
    → user_at j (filter p l)
      ≡ elim (user_at j l) [ none ↦ none | some u ↦ if p u then some u else none ]
user_at-filter_distinct p j [] d = refl
user_at-filter_distinct p j (u ∷ l) d =
    let rest = user_at-filter_distinct p j l d.1 in
    let absent : (u.id == j) ≡ true → user_at j l ≡ none =
      λ e. subst (λ i. user_at i l ≡ none) ((nat_beq_iff u.id j).0 e) d.0 in
    elim (Bool-cases (p u)) [
      | inl keep ↦ rw keep (ground (arith, rest, absent, keep))
      | inr drop ↦ rw drop (ground (arith, rest, absent, drop))
    ]
