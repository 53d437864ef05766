-- ===== src/ControlPlane/Delta.antt =====
-- applyUserDelta of internal/controlplane/mailbox.go.
pub mod Effect
use xboard_node_plus.Prelude.{
  ℕ, ◌+◌, Bool, not, List, [], ◌∷◌, ◌++◌, Option, none, some, Map, lookup, has, insert, filter, set,
  length, nat_eq, str_eq, ◌==◌, if◌then◌else◌, Str, codes,
}
use xboard_node_plus.Model.Values.{Slice, items}
use xboard_node_plus.Model.{UserSpec}
use xboard_node_plus.Model.Users.{id_set}

-- `for i, user := range current { index[user.ID] = i }`, from i
pub index_users : ℕ → List UserSpec → Map ℕ ℕ → Map ℕ ℕ
index_users i [] index = index
index_users i (u ∷ l) index = index_users (i + 1) l (insert u.id i index)

-- The loop of the case "add".
pub add_users : List UserSpec → Map ℕ ℕ → List UserSpec → List UserSpec
add_users [] index current = current
add_users (u ∷ l) index current = elim (lookup u.id index) [
  | some i ↦ add_users l index (set current i u)
  | none ↦ add_users l (insert u.id (length current) index) (current ++ u ∷ [])
]

-- A copy appended to a nil slice.
pub nil_if_empty : List UserSpec → Slice UserSpec
nil_if_empty [] = none
nil_if_empty (u ∷ l) = some (u ∷ l)

-- The new users, or `none` for an unknown action, which leaves them as they were. The clones and
-- the appends of the source make a nil result of an empty one.
pub apply_user_delta : Slice UserSpec → Str → List UserSpec → Option (Slice UserSpec)
unfolding nil_if_empty
apply_user_delta users action delta =
    let current = items users in
    let added = add_users delta (index_users 0 current []) current in
    let kept = filter (λ u. not (has u.id (id_set delta []))) current in
    if action == codes "add"
    then some (elim users [ none ↦ nil_if_empty added | some l ↦ some added ])
    else if action == codes "remove"
    then some (nil_if_empty kept)
    else none
