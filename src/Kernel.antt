-- ===== src/Kernel.antt =====
-- internal/kernel/kernel.go: the difference of two user lists.
pub mod Diff
use xboard_node_plus.Prelude.{
  Bool, not, List, [], Option, none, some, lookup, filter, ◌==◌, nat_eq, str_eq, Map, ℕ, true,
}
use xboard_node_plus.Model.{UserSpec}
use xboard_node_plus.Model.Users.{by_id}

-- !exists || other.UUID != u.UUID
abbrev pub changed : Map ℕ UserSpec → UserSpec → Bool
changed m u = elim (lookup u.id m) [ none ↦ true | some o ↦ not (o.uuid == u.uuid) ]

-- The users to add and those to remove.
pub user_diff : List UserSpec → List UserSpec → List UserSpec × List UserSpec
user_diff old_users new_users = (
  filter (changed (by_id old_users [])) new_users,
  filter (changed (by_id new_users [])) old_users,
)
