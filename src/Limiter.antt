-- ===== src/Limiter.antt =====
-- internal/limiter: the device limits and the speed buckets of the users. Limiter is limiter.go; the
-- buckets of speedtracker.go are in Speed.
pub mod Removal
pub mod Speed
use xboard_node_plus.Prelude.{
  nat_eq, str_eq, ℕ, Bool, true, false, not, List, [], ◌∷◌, Option, Map, Str, lookup, insert, has,
  is_pos, if◌then◌else◌,
}
use xboard_node_plus.Model.{UserSpec}
use xboard_node_plus.Model.Users.{by_id, values}

pub record Limiter : Type 0 where
  pub users : Map ℕ UserSpec
  pub uuid_device_limit : Map Str ℕ

pub new : Limiter
new = record { users = []; uuid_device_limit = [] }

-- The IDs of a table that another table lacks.
pub missing_ids : Map ℕ UserSpec → Map ℕ UserSpec → List ℕ
missing_ids [] new_users = []
missing_ids ((id, u) ∷ m) new_users =
    let rest = missing_ids m new_users in if not (has id new_users) then id ∷ rest else rest

pub index_limits : Map ℕ UserSpec → Map Str ℕ → Map Str ℕ
index_limits [] idx = idx
index_limits ((id, u) ∷ m) idx =
    index_limits m (if is_pos u.device_limit then insert u.uuid u.device_limit idx else idx)

-- The removed IDs and the new state.
pub update_users : List UserSpec → Limiter → List ℕ × Limiter
unfolding missing_ids index_limits by_id
update_users users l =
    let new_users = by_id users [] in
    (
      missing_ids l.users new_users,
      record { users = new_users; uuid_device_limit = index_limits new_users [] },
    )

pub get_device_limit_by_uuid : Str → Limiter → Option ℕ
get_device_limit_by_uuid uuid l = lookup uuid l.uuid_device_limit
