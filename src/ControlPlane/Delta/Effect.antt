-- ===== src/ControlPlane/Delta/Effect.antt =====
-- What applyUserDelta of internal/controlplane/mailbox.go does to the table of users, and that the
-- service's own merge and subtraction do the same.
use xboard_node_plus.Model.{UserSpec}
use xboard_node_plus.Model.Users.{lookup-id_set, user_at-filter, user_at-append, or_at, user_at}
use xboard_node_plus.ControlPlane.Delta.{
  filter, id_set, has, not, codes, apply_user_delta, items, Str, Slice, add_users, nil_if_empty,
  index_users,
}
use xboard_node_plus.Service.Users.{merge_users, subtract_users}
use xboard_node_plus.Service.Users.Tables.{user_at-merge_users, user_at-subtract_users}
use xboard_node_plus.Prelude.{
  Bool-cases, sym, ◌∙◌, Option-cases, inl, inr, ℕ, zero, suc, ◌+◌, lookup, lookup-insert, insert,
  set, length, ◌≡◌, refl, List, [], ◌∷◌, ◌++◌, Option, none, some, arith, if◌then◌else◌, ◌==◌,
  nat_eq, str_eq, Map,
}

-- The position of the last user with the ID.
last_pos : ℕ → List UserSpec → Option ℕ
last_pos j [] = none
last_pos j (u ∷ l) = elim (last_pos j l) [
  | some i ↦ some (suc i)
  | none ↦ if u.id == j then some 0 else none
]

lookup-index_users :
    (k j : ℕ) (l : List UserSpec) (m : Map ℕ ℕ)
    → lookup j (index_users k l m)
      ≡ elim (last_pos j l) [ some i ↦ some (k + i) | none ↦ lookup j m ]
unfolding index_users last_pos
lookup-index_users k j [] m = refl
lookup-index_users k j (u ∷ l) m =
    ground (arith, lookup-index_users (k + 1) j l (insert u.id k m), lookup-insert u.id j k m)

last_pos-none : (j : ℕ) (l : List UserSpec) → last_pos j l ≡ none → user_at j l ≡ none
unfolding last_pos
last_pos-none j [] h = refl
last_pos-none j (u ∷ l) h = ground (arith, last_pos-none j l)

last_pos-append :
    (j : ℕ) (l : List UserSpec) (u : UserSpec)
    → last_pos j (l ++ u ∷ []) ≡ (if u.id == j then some (length l) else last_pos j l)
unfolding last_pos
last_pos-append j [] u = ground arith
last_pos-append j (v ∷ l) u = ground (arith, last_pos-append j l u)

-- To write a user at the last place of its ID.
user_at-set :
    (l : List UserSpec) (i : ℕ) (u : UserSpec) (j : ℕ)
    → last_pos u.id l ≡ some i
    → user_at j (set l i u) ≡ (if u.id == j then some u else user_at j l)
unfolding last_pos
user_at-set [] i u j h = ground arith
user_at-set (v ∷ l) zero u j h = ground (arith, last_pos-none u.id l, last_pos-none j l)
user_at-set (v ∷ l) (suc i) u j h = ground (arith, user_at-set l i u j)

last_pos-set :
    (l : List UserSpec) (i : ℕ) (u : UserSpec) (j : ℕ)
    → last_pos u.id l ≡ some i
    → last_pos j (set l i u) ≡ last_pos j l
unfolding last_pos
last_pos-set [] i u j h = refl
last_pos-set (v ∷ l) zero u j h = ground arith
last_pos-set (v ∷ l) (suc i) u j h = ground (arith, last_pos-set l i u j)

abbrev IsIndex : Map ℕ ℕ → List UserSpec → Type 0
IsIndex index current = (j : ℕ) → lookup j index ≡ last_pos j current

IsIndex-set :
    (index : Map ℕ ℕ) (current : List UserSpec) (u : UserSpec) (i : ℕ)
    → IsIndex index current
    → lookup u.id index ≡ some i
    → IsIndex index (set current i u)
IsIndex-set index current u i h e = λ j. h j ∙ sym (last_pos-set current i u j (sym (h u.id) ∙ e))

IsIndex-append :
    (index : Map ℕ ℕ) (current : List UserSpec) (u : UserSpec)
    → IsIndex index current
    → IsIndex (insert u.id (length current) index) (current ++ u ∷ [])
IsIndex-append index current u h = λ j.
    ground (arith, h j, lookup-insert u.id j (length current) index, last_pos-append j current u)

-- The loop, while the index is that of the list.
user_at-add_users :
    (delta : List UserSpec) (index : Map ℕ ℕ) (current : List UserSpec)
    → IsIndex index current
    → (j : ℕ)
    → user_at j (add_users delta index current) ≡ or_at (user_at j delta) (user_at j current)
unfolding add_users
user_at-add_users [] index current h j = refl
user_at-add_users (u ∷ l) index current h j = elim (Option-cases (lookup u.id index)) [
  | inl absent ↦
      rw (absent, add_users)
        (ground (
          arith,
          user_at-add_users l _ _ (IsIndex-append index current u h) j,
          user_at-append j current (u ∷ []),
        ))
  | inr (i, found) ↦
      rw (found, add_users)
        (ground (
          arith,
          user_at-add_users l _ _ (IsIndex-set index current u i h found) j,
          user_at-set current i u j (sym (h u.id) ∙ found),
        ))
]

items-nil_if_empty : (l : List UserSpec) → items (nil_if_empty l) ≡ l
unfolding nil_if_empty
items-nil_if_empty [] = refl
items-nil_if_empty (u ∷ l) = refl

-- The users that a result holds under an ID, where the action is known.
abbrev pub found_at : ℕ → Option (Slice UserSpec) → Option (Option UserSpec)
found_at j r = elim r [ none ↦ none | some users ↦ some (user_at j (items users)) ]

module _ (users : Slice UserSpec) (delta : List UserSpec) where
  added : List UserSpec
  added = add_users delta (index_users 0 (items users) []) (items users)

  kept : List UserSpec
  kept = filter (λ u. not (has u.id (id_set delta []))) (items users)

  user_at-added : (j : ℕ) → user_at j added ≡ user_at j (items (merge_users users (some delta)))
  unfolding added lookup
  user_at-added j =
      user_at-add_users delta (index_users 0 (items users) []) (items users)
        (λ i. ground (arith, lookup-index_users 0 i (items users) [])) j
      ∙ sym (user_at-merge_users j users (some delta))

  user_at-kept : (j : ℕ) → user_at j kept ≡ user_at j (items (subtract_users users (some delta)))
  unfolding kept lookup
  user_at-kept j =
      user_at-filter (λ i. not (has i (id_set delta []))) j (items users)
      ∙ ground (arith, lookup-id_set j delta [], user_at-subtract_users j users (some delta))

  -- Under each ID an "add" in the mailbox leaves the user that the service's mergeUsers leaves,
  -- a "remove" the user that its subtractUsers leaves, and any other action is refused.
  pub found_at-apply_user_delta :
      (j : ℕ) (action : Str)
      → found_at j (apply_user_delta users action delta) ≡ (
          if action == codes "add"
          then some (user_at j (items (merge_users users (some delta))))
          else if action == codes "remove"
          then some (user_at j (items (subtract_users users (some delta))))
          else none)
  unfolding apply_user_delta added kept
  found_at-apply_user_delta j action = elim (Bool-cases (action == codes "add")) [
    | inl add ↦ rw add (ground (arith, items-nil_if_empty added, user_at-added j))
    | inr other ↦ rw other (elim (Bool-cases (action == codes "remove")) [
      | inl remove ↦ rw remove (ground (arith, items-nil_if_empty kept, user_at-kept j))
      | inr unknown ↦ rw unknown
    ])
  ]
