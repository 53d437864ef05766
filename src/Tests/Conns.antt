-- ===== src/Tests/Conns.antt =====
-- The examples for the statistics and the device gate of the sing-box kernel.
use xboard_node_plus.AccessLog
use xboard_node_plus.AccessLog.{new_activity}
use xboard_node_plus.AccessLog.Reports.{
  act, run, IsUpToDate, snapshot-IsUpToDate, asked, uploaded, downloaded,
}
use xboard_node_plus.Prelude.{
  none, half_word, ◌<◌, ◌+◌, str_beq, nat_eq, str_eq, true, some, codes, [], ◌∷◌, lookup, Distinct,
  ◌≡◌, refl, arith,
}
use xboard_node_plus.ConnTracker.{ConnTracker, UserStats, get_user_traffic}
use xboard_node_plus.ConnTracker.Users.{conns_of, traffic_of, total_conns, get_user_traffic-traffic}

abbrev stats : UserStats
stats = record { upload = 5; download = 9; ips = (codes "b", 1) ∷ []; user_conn_count = 1 }

-- Another node reported the address d.
abbrev tracker : ConnTracker
tracker = record {
  users = (1, stats) ∷ [];
  uuid_map = (codes "ann", 1) ∷ [];
  global_devices = (1, (codes "d", true) ∷ []) ∷ [];
  global_last_update = some 100;
}

count_small : conns_of (codes "b") stats + 1 < half_word
unfolding lookup str_beq
count_small = omega arith

users-Distinct : Distinct tracker.users
unfolding lookup
users-Distinct = (refl, tt)

get_user_traffic-traffic_example :
    (lookup 1 (get_user_traffic tracker).traffic ≡ traffic_of (lookup 1 tracker.users))
    × ((get_user_traffic tracker).conn_count ≡ total_conns tracker.users)
get_user_traffic-traffic_example = get_user_traffic-traffic tracker 1 users-Distinct

stats_there : lookup 1 tracker.users ≡ some stats
unfolding lookup
stats_there = refl

abbrev visit : AccessLog.Event
visit = record {
  session_id = codes "s";
  user_id = 1;
  xray_email = codes "ann";
  source = codes "10.0.0.2";
  network = codes "tcp";
  destination = codes "example.org:443";
  timestamp = 0;
  upload = 0;
  download = 0;
}

snapshot-IsUpToDate_example :
    IsUpToDate visit
      (act asked (run (uploaded 5 ∷ asked ∷ downloaded 9 ∷ []) (none, some (new_activity visit))))
snapshot-IsUpToDate_example = snapshot-IsUpToDate visit (uploaded 5 ∷ asked ∷ downloaded 9 ∷ [])
