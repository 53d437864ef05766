-- ===== src/Service/Users/Tables.antt =====
-- mergeUsers and subtractUsers of internal/service/service.go, and UserDiff of
-- internal/kernel/kernel.go, as operations on the table of users.
use xboard_node_plus.Prelude.{
  true, sym, str_beq_iff, ap, ◌==◌, inl, inr, Bool-cases, lookup, ℕ, ◌≡◌, refl, not, List, [], ◌∷◌,
  Option, none, some, arith, has, is_some, if◌then◌else◌, nat_eq, str_eq, Str,
}
use xboard_node_plus.Model.{UserSpec}
use mathlib.Core.Option
use xboard_node_plus.Kernel.{user_diff}
use xboard_node_plus.Kernel.Diff.{differs, user_at-to_add, user_at-to_remove}
use xboard_node_plus.Model.Users.{
  user_at, or_at, by_id, id_set, lookup-by_id, by_id-IsKeyed, user_at-values, user_at-filter,
  lookup-id_set, DistinctIds,
}
use xboard_node_plus.Model.Values.{Slice, items}
use xboard_node_plus.Service.Users.{merge_users, subtract_users}

-- The users of mergeUsers are those of the delta, and the others of the base.
pub user_at-merge_users :
    (j : ℕ) (base delta : Slice UserSpec)
    → user_at j (items (merge_users base delta))
      ≡ or_at (user_at j (items delta)) (user_at j (items base))
unfolding merge_users lookup
user_at-merge_users j base none = refl
user_at-merge_users j base (some d) = ground (
  arith,
  user_at-values j (by_id d (by_id (items base) []))
      (by_id-IsKeyed d _ (by_id-IsKeyed (items base) [] (tt, tt))),
  lookup-by_id j d (by_id (items base) []),
  lookup-by_id j (items base) [],
)

-- The users of subtractUsers are those of the base whose ID the delta does not hold.
pub user_at-subtract_users :
    (j : ℕ) (base delta : Slice UserSpec)
    → user_at j (items (subtract_users base delta))
      ≡ (if is_some (user_at j (items delta)) then none else user_at j (items base))
unfolding subtract_users lookup
user_at-subtract_users j none delta = ground arith
user_at-subtract_users j (some base) none = refl
user_at-subtract_users j (some base) (some []) = refl
user_at-subtract_users j (some base) (some (d ∷ l)) = ground (
  arith,
  user_at-filter (λ i. not (has i (id_set (d ∷ l) []))) j base,
  lookup-id_set j (d ∷ l) [],
)

abbrev pub uuid_at : ℕ → List UserSpec → Option Str
uuid_at j l = Option.map (λ u. u.uuid) (user_at j l)

-- The two halves of a difference at one ID, applied.
diff_applied :
    (o n : Option UserSpec)
    → Option.map
        (λ u. u.uuid)
        (or_at
          (elim n [ none ↦ none | some u ↦ if differs o u then some u else none ])
          (if is_some (elim o [ none ↦ none | some u ↦ if differs n u then some u else none ])
            then none
            else o))
      ≡ Option.map (λ u. u.uuid) n
diff_applied none none = refl
diff_applied none (some n) = refl
diff_applied (some o) none = refl
diff_applied (some o) (some n) = elim (Bool-cases (o.uuid == n.uuid)) [
  | inl same ↦
      let e = (str_beq_iff o.uuid n.uuid).0 same in
      let back : (n.uuid == o.uuid) ≡ true = (str_beq_iff n.uuid o.uuid).1 (sym e) in
      rw (same, back) (ap some e)
  | inr other ↦ rw other
]

-- To remove from the old users those that UserDiff says to remove, and then to add those that it says
-- to add, leaves under each ID the UUID that it has among the new users. No ID stands twice in
-- either list.
pub uuid_at-user_diff :
    (old_users new_users : List UserSpec) (j : ℕ)
    → DistinctIds old_users
    → DistinctIds new_users
    → uuid_at j (
        items (
          merge_users
            (subtract_users (some old_users) (some (user_diff old_users new_users).1))
            (some (user_diff old_users new_users).0)))
      ≡ uuid_at j new_users
uuid_at-user_diff old_users new_users j dold dnew =
    let (to_add, to_remove) = user_diff old_users new_users in
    let e1 =
      user_at-merge_users j (subtract_users (some old_users) (some to_remove)) (some to_add) in
    let e2 = user_at-subtract_users j (some old_users) (some to_remove) in
    rw
      (
        e1,
        e2,
        user_at-to_add j old_users new_users dnew,
        user_at-to_remove j old_users new_users dold,
      )
      (diff_applied (user_at j old_users) (user_at j new_users))
