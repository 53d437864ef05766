-- ===== src/Tests/Gates.antt =====
-- The examples for the limits of the connections.
use xboard_node_plus.Prelude.{
  str_beq, ℕ, true, false, none, some, codes, List, [], ◌∷◌, Map, ◌≡◌, refl, has, lookup, keys,
  is_pos, leb, below, nat_eq, str_eq, if◌then◌else◌,
}
use xboard_node_plus.Dispatcher.{
  Dispatcher, refcount, ips_of, limit_of, route, admit, check_device_limit, del_conn,
}
use xboard_node_plus.Dispatcher.Admission.{answer, check_device_limit-answer}
use xboard_node_plus.Dispatcher.Counting.{Op, open_conn, close_conn, run, is_tracked, tracked-run}
use xboard_node_plus.Dispatcher.Race.{admit-race}
use xboard_node_plus.Limiter
use xboard_node_plus.Limiter.{Limiter, update_users}
use xboard_node_plus.Limiter.Speed.{SpeedTracker}
use xboard_node_plus.Model.{UserSpec}
use xboard_node_plus.Tests.Samples.{bob, new_ann, both}

-- One counted connection of a user with a limit of one.
abbrev one_conn : Dispatcher
one_conn = record {
  limited_ips = (codes "ann", (codes "b", 1) ∷ []) ∷ [];
  device_limits = (codes "ann", 1) ∷ [];
  email_to_uid = (codes "ann", 1) ∷ [];
  unlimited_ips = [];
  conn_count = 1;
}

-- The same, where the user also connected before the limit was set.
abbrev freed : Dispatcher
freed = record one_conn { unlimited_ips = (codes "ann", []) ∷ [] }

one_conn_limited : is_pos (limit_of (codes "ann") one_conn) ≡ true
unfolding lookup str_beq
one_conn_limited = refl

one_conn_bound : has (codes "ann") one_conn.unlimited_ips ≡ false
unfolding lookup str_beq
one_conn_bound = refl

one_conn_only : lookup (codes "ann") one_conn.limited_ips ≡ some ((codes "b", 1) ∷ [])
unfolding lookup str_beq
one_conn_only = refl

freed_known : has (codes "ann") freed.unlimited_ips ≡ true
unfolding lookup str_beq
freed_known = refl

freed_tracked : is_tracked (codes "ann") (codes "b") freed ≡ true
unfolding lookup str_beq
freed_tracked = refl

check_device_limit-answer_example :
    answer (check_device_limit (codes "ann") (codes "c") true one_conn)
    ≡ some (
        if is_pos (refcount (codes "c") (ips_of (codes "ann") one_conn.limited_ips))
        then false
        else leb
            (limit_of (codes "ann") one_conn)
            (below (codes "c") (keys (ips_of (codes "ann") one_conn.limited_ips))))
check_device_limit-answer_example =
    check_device_limit-answer (codes "ann") (codes "c") true one_conn one_conn_limited

abbrev closings : List Op
closings = close_conn (codes "ann") (codes "b") ∷ open_conn (codes "ann") (codes "c") true ∷ []

tracked-run_example : is_tracked (codes "ann") (codes "b") (run closings freed) ≡ true
tracked-run_example = tracked-run (codes "ann") (codes "b") closings freed freed_known freed_tracked

admit-race_example :
    admit
      (route (codes "ann") (codes "b") one_conn)
      (codes "ann")
      (codes "b")
      true
      (del_conn (codes "ann") (codes "b") one_conn)
    ≡ none
admit-race_example =
    admit-race (codes "ann") (codes "b") one_conn one_conn_limited one_conn_bound one_conn_only

abbrev known_users : Limiter
known_users = (update_users both Limiter.new).1

-- A bucket that is its rate and its burst.
abbrev bucket : ℕ → ℕ → ℕ × ℕ
bucket r b = (r, b)

abbrev with_limit : ℕ → ℕ × ℕ → ℕ × ℕ
with_limit r x = (r, x.1)

abbrev with_burst : ℕ → ℕ × ℕ → ℕ × ℕ
with_burst b x = (x.0, b)

abbrev users : Map ℕ UserSpec
users = (1, new_ann) ∷ (2, bob) ∷ []

abbrev buckets : SpeedTracker (ℕ × ℕ)
buckets = record { buckets = (1, (1250000, 1250000)) ∷ []; uuid_map = []; has_limits = true }
