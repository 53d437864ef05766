-- ===== src/Limiter/Removal.antt =====
-- Which users the UpdateUsers of internal/limiter/limiter.go reports as removed.
use xboard_node_plus.Prelude.{
  nat_eq, nat_beq_iff, ℕ, Bool, not, ◌&&◌, List, [], ◌∷◌, Map, lookup, has, any, ◌==◌, is_some, ◌≡◌,
  refl, arith, Bool-cases, inl, inr, ap, ◌∙◌,
}
use xboard_node_plus.Model.{UserSpec}
use xboard_node_plus.Model.Users.{by_id, user_at, lookup-by_id}
use xboard_node_plus.Limiter
use xboard_node_plus.Limiter.{Limiter, missing_ids, update_users}

abbrev pub is_listed : ℕ → List ℕ → Bool
is_listed j l = any (λ i. i == j) l

missing_ids-lem :
    (j : ℕ) (m n : Map ℕ UserSpec) → is_listed j (missing_ids m n) ≡ (has j m && not (has j n))
unfolding missing_ids lookup
missing_ids-lem j [] n = refl
missing_ids-lem j ((k, u) ∷ m) n = elim (Bool-cases (k == j)) [
  | inl same ↦ let e = (nat_beq_iff k j).0 same in ground (arith, e, same, missing_ids-lem j m n)
  | inr other ↦ ground (arith, other, missing_ids-lem j m n)
]

by_id_lem : (j : ℕ) (users : List UserSpec) → lookup j (by_id users []) ≡ user_at j users
unfolding lookup
by_id_lem j users = ground (arith, lookup-by_id j users [])

-- UpdateUsers reports exactly the IDs that the limiter knew and that are not in the new list, and
-- afterwards knows the users of the new list, the last one of each ID.
update_users-removed :
    (j : ℕ) (users : List UserSpec) (l : Limiter)
    → (is_listed j (update_users users l).0 ≡ (has j l.users && not (is_some (user_at j users))))
      × (lookup j (update_users users l).1.users ≡ user_at j users)
unfolding update_users
update_users-removed j users l =
    let known : lookup j (by_id users []) ≡ user_at j users = by_id_lem j users in
    (
      missing_ids-lem j l.users (by_id users []) ∙ ap (λ o. has j l.users && not (is_some o)) known,
      known,
    )

-- The state after UpdateUsers does not depend on the one before.
pub update_users-fresh :
    (users : List UserSpec) (l : Limiter)
    → (update_users users l).1 ≡ (update_users users Limiter.new).1
unfolding update_users
update_users-fresh users l = refl
