-- ===== src/Tracker/Keeps.antt =====
-- What each method of internal/tracker/tracker.go other than Process leaves of the accounts.
use xboard_node_plus.Prelude.{ℕ, Str, List, [], Map, ◌≡◌, refl, str_beq, Bool-cases, inl, inr}
use xboard_node_plus.Tracker.{
  Pair, Tracker, flush_traffic, restore_traffic, calc_alive_ips_hash, flush_alive_ips,
  restore_alive_ips,
}

-- Two trackers with the same accounts.
abbrev pub IsSameAccounts : Tracker → Tracker → Type 0
IsSameAccounts t u = (t.last_seen ≡ u.last_seen) × (t.pending_traffic ≡ u.pending_traffic)

pub flush_traffic_lem :
    (t : Tracker)
    → ((flush_traffic t).0 ≡ t.pending_traffic)
      × ((flush_traffic t).1.pending_traffic ≡ [])
      × ((flush_traffic t).1.last_seen ≡ t.last_seen)
unfolding flush_traffic
flush_traffic_lem t = (refl, refl, refl)

pub flush_alive_ips-same :
    (digest : Str → Str) (t : Tracker) → IsSameAccounts (flush_alive_ips digest t).1 t
unfolding flush_alive_ips
flush_alive_ips-same digest t =
    elim (Bool-cases
      (str_beq (calc_alive_ips_hash digest t.live.alive_ips) t.last_alive_ips_hash)) [
        | inl same ↦ rw (same) (refl, refl)
        | inr other ↦ rw (other) (refl, refl)
      ]

pub restore_alive_ips-same :
    (m : Map ℕ (List Str)) (t : Tracker) → IsSameAccounts (restore_alive_ips m t) t
unfolding restore_alive_ips
restore_alive_ips-same m t = (refl, refl)

pub restore_traffic-seen :
    (ds : Map ℕ Pair) (t : Tracker) → (restore_traffic ds t).last_seen ≡ t.last_seen
unfolding restore_traffic
restore_traffic-seen ds t = refl
