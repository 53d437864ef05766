-- ===== src/Service/Users.antt =====
-- The pure user-list functions of internal/service/service.go.
pub mod Tables
pub mod Acceptance
use xboard_node_plus.Prelude.{
  ℕ, ◌+◌, ◌*◌, not, ◌&&◌, List, [], ◌∷◌, Option, none, some, KeySet, has, insert, filter, length,
  ltb, leb, is_pos, if◌then◌else◌, Str, trim_space, nat_eq, str_eq,
}
use xboard_node_plus.Model.Values.{Slice, items}
use xboard_node_plus.Model.{UserSpec}
use xboard_node_plus.Model.Users.{by_id, values, id_set}

-- mergeUsers: the result's order is that of a map's iteration.
unfoldable pub merge_users : Slice UserSpec → Slice UserSpec → Slice UserSpec
merge_users base none = some (items base)
merge_users base (some delta) = some (values (by_id delta (by_id (items base) [])))

-- subtractUsers
unfoldable pub subtract_users : Slice UserSpec → Slice UserSpec → Slice UserSpec
subtract_users none delta = none
subtract_users (some base) none = some base
subtract_users (some base) (some []) = some base
subtract_users (some base) (some (d ∷ l)) =
    some (filter (λ u. not (has u.id (id_set (d ∷ l) []))) base)

pub data Rejection : Type 0 where
  empty_snapshot : Rejection
  invalid_id : ℕ → Rejection
  empty_uuid : ℕ → Rejection
  duplicate_id : ℕ → Rejection
  duplicate_uuid : Str → Rejection
  count_drop : ℕ → ℕ → Rejection

abbrev abnormal_user_drop_min_previous : ℕ
abnormal_user_drop_min_previous = 10

abbrev abnormal_user_drop_ratio_numerator : ℕ
abnormal_user_drop_ratio_numerator = 1

abbrev abnormal_user_drop_ratio_denom : ℕ
abnormal_user_drop_ratio_denom = 2

-- The loop of rejectFetchedUsers from index i; `none` is the empty reason.
pub check_users : ℕ → KeySet ℕ → KeySet Str → List UserSpec → Option Rejection
check_users i ids uuids [] = none
check_users i ids uuids (u ∷ l) =
    let uuid = trim_space u.uuid in
    let rest = check_users (i + 1) (insert u.id tt ids) (insert uuid tt uuids) l in
    if not (is_pos u.id)
    then some (invalid_id i)
    else if leb (length uuid) 0
    then some (empty_uuid i)
    else if has u.id ids
    then some (duplicate_id u.id)
    else if has uuid uuids
    then some (duplicate_uuid uuid)
    else rest

pub reject_fetched_users : List UserSpec → List UserSpec → Option Rejection
reject_fetched_users previous fetched =
    let drop =
      leb abnormal_user_drop_min_previous (length previous)
      && ltb (length fetched * abnormal_user_drop_ratio_denom)
          (length previous * abnormal_user_drop_ratio_numerator) in
    if ltb 0 (length previous) && leb (length fetched) 0
    then some empty_snapshot
    else elim (check_users 0 [] [] fetched) [
      | some r ↦ some r
      | none ↦ if drop then some (count_drop (length previous) (length fetched)) else none
    ]
