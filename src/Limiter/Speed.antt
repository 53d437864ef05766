-- ===== src/Limiter/Speed.antt =====
-- internal/limiter/speedtracker.go: one token bucket for each user with a speed limit. The bucket
-- is golang.org/x/time/rate's Limiter, a parameter B with the calls that the code makes.
pub mod Buckets
pub mod Rates
use xboard_node_plus.Prelude.{
  int_leb, nat_eq, str_eq, ℕ, ◌*◌, ◌%◌, Bool, true, false, not, List, [], ◌∷◌, Option, none, some,
  Map, KeySet, Str, lookup, insert, remove, has, length, is_pos, is_neg, sub64, sdiv64, word, ltb,
  leb, if◌then◌else◌, ◌&&◌, Option-cases,
}
use xboard_node_plus.Model.{UserSpec}
use xboard_node_plus.Model.Users.{values}

pub record SpeedTracker (B : Type 0) : Type 0 where
  pub buckets : Map ℕ B
  pub uuid_map : Map Str ℕ
  pub has_limits : Bool

-- a < b of two `int` patterns
abbrev pub int_ltb : ℕ → ℕ → Bool
int_ltb a b = not (int_leb b a)

-- int(user.SpeedLimit) * 1_000_000 / 8
pub bytes_per_sec : ℕ → ℕ
bytes_per_sec speed = sdiv64 ((speed * 1000000) % word) 8

-- max(bytesPerSec, 64 KiB)
pub burst_of : ℕ → ℕ
burst_of bps = if int_ltb bps 65536 then 65536 else bps

-- The burst of a new bucket, with its second cap.
pub capped_burst : ℕ → ℕ
unfolding burst_of
capped_burst bps =
    let burst = burst_of bps in
    let cap4s = (bps * 4) % word in
    if int_ltb 65536 cap4s && int_ltb cap4s burst then cap4s else burst

pub is_empty_str : Str → Bool
is_empty_str [] = true
is_empty_str (b ∷ s) = false

module _ {B : Type 0} (new_limiter : ℕ → ℕ → B) (set_limit set_burst : ℕ → B → B) where
  pub new_speed_tracker : SpeedTracker B
  new_speed_tracker = record { buckets = []; uuid_map = []; has_limits = false }

  -- The update of a bucket that is there.
  pub update_bucket : UserSpec → Map ℕ B → Map ℕ B
  unfolding bytes_per_sec burst_of
  update_bucket user buckets =
      let bps = bytes_per_sec user.speed_limit in
      elim (lookup user.id buckets) [
        | none ↦ buckets
        | some lim ↦
            if is_pos user.speed_limit
            then insert user.id (set_burst (burst_of bps) (set_limit bps lim)) buckets
            else remove user.id buckets
      ]

  pub update_all : List UserSpec → Map ℕ B → Map ℕ B
  unfolding update_bucket
  update_all [] buckets = buckets
  update_all (user ∷ l) buckets = update_all l (update_bucket user buckets)

  pub uuid_index : List UserSpec → Map Str ℕ → Map Str ℕ
  uuid_index [] m = m
  uuid_index (user ∷ l) m =
      uuid_index l (if is_empty_str user.uuid then m else insert user.uuid user.id m)

  pub active_ids : List UserSpec → KeySet ℕ → KeySet ℕ
  active_ids [] m = m
  active_ids (user ∷ l) m = active_ids l (insert user.id tt m)

  pub drop_inactive : KeySet ℕ → Map ℕ B → Map ℕ B
  drop_inactive ids [] = []
  drop_inactive ids ((id, lim) ∷ m) =
      let rest = drop_inactive ids m in if has id ids then (id, lim) ∷ rest else rest

  -- Over the limiter's users, in the order of the iteration.
  pub update_buckets : Map ℕ UserSpec → SpeedTracker B → SpeedTracker B
  unfolding update_all uuid_index active_ids drop_inactive
  update_buckets users t =
      let current = values users in
      let buckets = drop_inactive (active_ids current []) (update_all current t.buckets) in
      record {
        buckets = buckets;
        uuid_map = uuid_index current [];
        has_limits = not (leb (length buckets) 0);
      }

  -- The bucket of a user, none for nil, by the limiter's present users.
  pub get_limiter : Str → Map ℕ UserSpec → SpeedTracker B → Option B × SpeedTracker B
  unfolding bytes_per_sec capped_burst
  get_limiter uuid users t = elim (lookup uuid t.uuid_map) [
    | none ↦ (none, t)
    | some uid ↦ elim (lookup uid t.buckets) [
      | some lim ↦ (some lim, t)
      | none ↦ elim (lookup uid users) [
        | none ↦ (none, t)
        | some u ↦
            let bps = bytes_per_sec u.speed_limit in
            let lim = new_limiter bps (capped_burst bps) in
            if not (is_pos u.speed_limit)
            then (none, t)
            else (some lim, record t { buckets = insert uid lim t.buckets; has_limits = true })
      ]
    ]
  ]
