-- ===== src/ConnTracker/Users.antt =====
-- The statistics of the users in internal/kernel/singbox/conntracker.go.
use mathlib.Core.Path.{subst}
use xboard_node_plus.ConnTracker.{
  sub64, ConnTracker, UserStats, Reading, new_user_stats, add_conn, remove_conn, read_user,
  read_users, get_user_traffic, add_stats, set_user_map,
}
use xboard_node_plus.Prelude.{
  str_beq_iff, nat_eq, str_eq, nat_beq_iff, ℕ, ◌+◌, ◌<◌, ◌||◌, [], ◌∷◌, none, some, Option, Map,
  Str, lookup, insert, has, Distinct, lookup-insert, lookup-remove, or_else, is_some, is_pos,
  half_word, word, add64, ◌==◌, ◌≡◌, refl, ◌∙◌, arith, if◌then◌else◌, Bool-cases, inl, inr,
}

-- How many connections an address has.
abbrev pub conns_of : Str → UserStats → ℕ
conns_of ip u = or_else (lookup ip u.ips) 0

-- A connection that was counted and then closed leaves the count of every address and the number of
-- connections as they were. Neither counter is at its end.
remove_conn-add_conn :
    (ip j : Str) (u : UserStats)
    → conns_of ip u + 1 < half_word
    → u.user_conn_count < word
    → (conns_of j (remove_conn ip (add_conn ip u)) ≡ conns_of j u)
      × ((remove_conn ip (add_conn ip u)).user_conn_count ≡ u.user_conn_count)
remove_conn-add_conn ip j u h w =
    let ips = insert ip (add64 (conns_of ip u) 1) u.ips in
    let there = lookup-insert ip ip (add64 (conns_of ip u) 1) u.ips in
    let n = sub64 (or_else (lookup ip ips) 0) 1 in
    let self = (str_beq_iff ip ip).1 refl in
    let restored : n ≡ conns_of ip u = ground (arith, there, self, h) in
    let same = (str_beq_iff ip j).0 in
    (
      ground (
        arith,
        restored,
        same,
        lookup-insert ip j (add64 (conns_of ip u) 1) u.ips,
        lookup-insert ip j n ips,
        lookup-remove ip j ips,
      ),
      omega arith,
    )

-- What SetUserMap leaves of the statistics.
lookup-add_stats :
    (uid : ℕ) (m : Map Str ℕ) (users : Map ℕ UserStats) (us : UserStats)
    → lookup uid users ≡ some us
    → lookup uid (add_stats m users) ≡ some us
unfolding add_stats
lookup-add_stats uid [] users us h = h
lookup-add_stats uid ((uuid, k) ∷ m) users us h = elim (Bool-cases (has k users)) [
  | inl there ↦ rw (there) (lookup-add_stats uid m users us h)
  | inr missing ↦ rw (missing) (
      lookup-add_stats uid m (insert k new_user_stats users) us (
        ground
          (arith, h, missing, lookup-insert k uid new_user_stats users, (nat_beq_iff k uid).0)))
]

-- The sum of the connections of the users.
abbrev pub total_conns : Map ℕ UserStats → ℕ
total_conns [] = 0
total_conns ((uid, us) ∷ m) = add64 us.user_conn_count (total_conns m)

-- The traffic that a reading should have for a user.
abbrev pub traffic_of : Option UserStats → Option (ℕ × ℕ)
traffic_of none = none
traffic_of (some us) =
    if is_pos us.upload || is_pos us.download then some (us.upload, us.download) else none

traffic-read_users :
    (uid : ℕ) (m : Map ℕ UserStats) (r : Reading)
    → Distinct m
    → lookup uid (read_users m r).traffic ≡ (
        if is_some (traffic_of (lookup uid m))
        then traffic_of (lookup uid m)
        else lookup uid r.traffic)
unfolding read_users lookup
traffic-read_users uid [] r d = refl
traffic-read_users uid ((k, us) ∷ m) r d =
    let rest = traffic-read_users uid m (read_user k us r) d.1 in
    let write = lookup-insert k uid (us.upload, us.download) r.traffic in
    elim (Bool-cases (k == uid)) [
      | inl same ↦
          let gone : lookup uid m ≡ none =
            subst (λ i. lookup i m ≡ none) ((nat_beq_iff k uid).0 same) d.0 in
          ground (arith, rest, write, gone, same)
      | inr other ↦ ground (arith, rest, write, other)
    ]

conns-read_users :
    (m : Map ℕ UserStats) (r : Reading)
    → r.conn_count < word
    → (read_users m r).conn_count ≡ add64 r.conn_count (total_conns m)
unfolding read_users
conns-read_users [] r w = ground (arith, w)
conns-read_users ((k, us) ∷ m) r w =
    conns-read_users m (read_user k us r) (omega arith) ∙ ground arith

total_conns-word : (m : Map ℕ UserStats) → total_conns m < word
total_conns-word [] = omega arith
total_conns-word ((k, us) ∷ m) = omega arith

-- A reading of the kernel holds the counters of exactly the users with a positive one, and the sum of
-- the users' connections. No user stands twice in the table.
pub get_user_traffic-traffic :
    (t : ConnTracker) (uid : ℕ)
    → Distinct t.users
    → (lookup uid (get_user_traffic t).traffic ≡ traffic_of (lookup uid t.users))
      × ((get_user_traffic t).conn_count ≡ total_conns t.users)
unfolding get_user_traffic lookup
get_user_traffic-traffic t uid d = (
  traffic-read_users uid t.users _ d ∙ or_none (traffic_of (lookup uid t.users)),
  conns-read_users t.users _ (omega arith) ∙ ground (arith, total_conns-word t.users),
)
  where
    or_none : (o : Option (ℕ × ℕ)) → (if is_some o then o else none) ≡ o
    or_none none = refl
    or_none (some p) = refl

-- SetUserMap keeps the statistics of every user that has some.
pub set_user_map-kept :
    (m : Map Str ℕ) (t : ConnTracker) (uid : ℕ) (us : UserStats)
    → lookup uid t.users ≡ some us
    → lookup uid (set_user_map m t).users ≡ some us
unfolding set_user_map
set_user_map-kept m t uid us h = lookup-add_stats uid m t.users us h
