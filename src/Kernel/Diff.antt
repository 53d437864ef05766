-- ===== src/Kernel/Diff.antt =====
-- What UserDiff of internal/kernel/kernel.go holds under each ID.
use xboard_node_plus.Prelude.{
  lookup, ℕ, ◌≡◌, inl, inr, Bool, true, not, List, [], Option, none, some, arith, if◌then◌else◌,
  ◌==◌, nat_eq, str_eq, Option-cases,
}
use xboard_node_plus.Model.{UserSpec}
use xboard_node_plus.Kernel.{lookup, changed, user_diff}
use xboard_node_plus.Model.Users.{
  user_at, by_id, lookup-by_id, user_at-filter_distinct, user_at_id, DistinctIds,
}

-- Whether a user under this ID is new or has another UUID than in the other list.
abbrev pub differs : Option UserSpec → UserSpec → Bool
differs none u = true
differs (some o) u = not (o.uuid == u.uuid)

module _ (j : ℕ) (old_users new_users : List UserSpec) where
  pub user_at-to_add :
      DistinctIds new_users
      → user_at j (user_diff old_users new_users).0 ≡ elim (user_at j new_users) [
        | none ↦ none
        | some u ↦ if differs (user_at j old_users) u then some u else none
      ]
  unfolding user_diff lookup
  user_at-to_add d = elim (Option-cases (user_at j new_users)) [
    | inl absent ↦
        ground (arith, absent, user_at-filter_distinct (changed (by_id old_users [])) j new_users d)
    | inr (u, found) ↦
        let e = user_at_id j new_users u found in
        ground (
          arith,
          e,
          found,
          lookup-by_id j old_users [],
          user_at-filter_distinct (changed (by_id old_users [])) j new_users d,
        )
  ]

  pub user_at-to_remove :
      DistinctIds old_users
      → user_at j (user_diff old_users new_users).1 ≡ elim (user_at j old_users) [
        | none ↦ none
        | some u ↦ if differs (user_at j new_users) u then some u else none
      ]
  unfolding user_diff lookup
  user_at-to_remove d = elim (Option-cases (user_at j old_users)) [
    | inl absent ↦
        ground (arith, absent, user_at-filter_distinct (changed (by_id new_users [])) j old_users d)
    | inr (u, found) ↦
        let e = user_at_id j old_users u found in
        ground (
          arith,
          e,
          found,
          lookup-by_id j new_users [],
          user_at-filter_distinct (changed (by_id new_users [])) j old_users d,
        )
  ]
