-- ===== src/Tests/Reports.antt =====
-- The examples for the traffic and device accounts and their reports.
use mathlib.Core.List.{Permᴰ}
use xboard_node_plus.Prelude.{
  ◌==◌, keys, or_else, ℕ, ◌≤◌, Bool, true, false, none, some, codes, List, [], ◌∷◌, Map, Str, ◌≡◌,
  refl, has, lookup, Distinct, All, arith, nat_eq, if◌then◌else◌, str_beq,
}
use xboard_node_plus.Tracker
use xboard_node_plus.Tracker.{
  Pair, Tracker, zero_pair, process, flush_alive_ips, restore_alive_ips, calc_alive_ips_hash,
}
use xboard_node_plus.Tracker.Traffic.{
  amount, ◌⊕◌, IsCounter, gain_pair, IsSound, amount-process, process-IsSound,
}
use xboard_node_plus.Tracker.Alive.{flush_alive_ips-restore}
use xboard_node_plus.Tracker.HashOrder.{IsSameSet, calc_alive_ips_hash-order}
use xboard_node_plus.Service.Reporting.{
  Event, track, report, report_done, devices, new_reporter, run,
}
use xboard_node_plus.Service.Reporting.Accounts.{account, meter}
use xboard_node_plus.Service.Reporting.Accounts.Conservation.{account-run}
use xboard_node_plus.Service.Reporting.Pace.{push_backoff-run}

abbrev first_reading : Map ℕ Pair
first_reading = (1, (100, 400)) ∷ (2, (7, 0)) ∷ []

-- The first user's counters began again at 0.
abbrev second_reading : Map ℕ Pair
second_reading = (1, (30, 900)) ∷ []

abbrev addresses : Map ℕ (Map Str Bool)
addresses = (1, (codes "10.0.0.2", true) ∷ (codes "10.0.0.1", true) ∷ []) ∷ []

abbrev same_addresses : Map ℕ (Map Str Bool)
same_addresses = (1, (codes "10.0.0.1", true) ∷ (codes "10.0.0.2", true) ∷ []) ∷ []

-- A digest that keeps its input.
abbrev plain : Str → Str
plain s = s

abbrev tracked : Tracker
tracked = process first_reading addresses 2 Tracker.new

first_counters : All (λ e. IsCounter e.1) first_reading
first_counters = omega arith

second_counters : All (λ e. IsCounter e.1) second_reading
second_counters = omega arith

first-Distinct : Distinct first_reading
unfolding lookup
first-Distinct = (refl, (refl, tt))

second-Distinct : Distinct second_reading
unfolding lookup
second-Distinct = (refl, tt)

new-IsSound : IsSound Tracker.new.last_seen Tracker.new.pending_traffic
unfolding Tracker.new lookup
new-IsSound = record { counters = λ j. omega arith; words = λ j. omega arith; distinct = tt }

tracked-IsSound : IsSound tracked.last_seen tracked.pending_traffic
tracked-IsSound =
    process-IsSound first_reading addresses 2 Tracker.new first-Distinct first_counters new-IsSound

amount-process_example :
    (amount 1 (process second_reading addresses 2 tracked).pending_traffic ≡ (
      if has 1 second_reading
      then amount 1 tracked.pending_traffic
        ⊕ gain_pair (amount 1 second_reading) (amount 1 tracked.last_seen)
      else amount 1 tracked.pending_traffic))
    × (amount 1 (process second_reading addresses 2 tracked).last_seen
        ≡ (if has 1 second_reading then amount 1 second_reading else amount 1 tracked.last_seen))
amount-process_example =
    amount-process second_reading addresses 2 tracked second-Distinct second_counters
      tracked-IsSound 1

flush_alive_ips-restore_example :
    (flush_alive_ips plain (
      process second_reading tracked.live.alive_ips 2
        (restore_alive_ips ((1, codes "10.0.0.1" ∷ []) ∷ []) (flush_alive_ips plain tracked).1))).0
    ≡ none
flush_alive_ips-restore_example =
    flush_alive_ips-restore plain tracked ((1, codes "10.0.0.1" ∷ []) ∷ []) second_reading 2

-- A tracker that saw the addresses and reported none.
abbrev connected : Tracker
connected = record {
  last_seen = [];
  pending_traffic = [];
  live = record {
    traffic = [];
    alive_ips = addresses;
    online = (1, 2) ∷ [];
    conn_count = 2;
    in_speed = 0;
    out_speed = 0;
  };
  alive_ips_buf = [];
  last_alive_ips_hash = [];
}

connected_changed :
    str_beq (calc_alive_ips_hash plain connected.live.alive_ips) connected.last_alive_ips_hash
    ≡ false
unfolding calc_alive_ips_hash str_beq
connected_changed = refl

connected-Distinct : Distinct connected.live.alive_ips
unfolding lookup
connected-Distinct = (refl, tt)

same_ips :
    (b : Bool)
    → Permᴰ
        (keys (
          or_else
            (if b then some ((codes "10.0.0.2", true) ∷ (codes "10.0.0.1", true) ∷ []) else none)
            []))
        (keys (
          or_else
            (if b then some ((codes "10.0.0.1", true) ∷ (codes "10.0.0.2", true) ∷ []) else none)
            []))
same_ips true = Permᴰ.swap refl refl
same_ips false = Permᴰ.nil

addresses_same : IsSameSet addresses same_addresses
unfolding lookup
addresses_same = (Permᴰ.cons refl Permᴰ.nil, λ uid. same_ips (1 == uid))

calc_alive_ips_hash-order_example :
    calc_alive_ips_hash plain addresses ≡ calc_alive_ips_hash plain same_addresses
calc_alive_ips_hash-order_example =
    calc_alive_ips_hash-order plain addresses same_addresses (omega arith) addresses_same

abbrev events : List Event
events =
    track first_reading addresses 2
    ∷ report
    ∷ track second_reading addresses 1
    ∷ report_done false
    ∷ devices true
    ∷ report
    ∷ report_done true
    ∷ []

-- A kernel that has one access event to hand out.
abbrev access_once : List ℕ → List ℕ × List ℕ
access_once k = (k, [])

account-run_example :
    account 1 (run plain true access_once events (new_reporter plain true access_once (5 ∷ [])))
    ≡ (meter 1 events (zero_pair, zero_pair)).1
account-run_example = account-run plain true access_once 1 (5 ∷ []) events (
  (first-Distinct, first_counters),
  (tt, ((second-Distinct, second_counters), (tt, (tt, (tt, (tt, tt)))))),
)

push_backoff-run_example :
    (run plain true access_once events (new_reporter plain true access_once (5 ∷ []))).push_backoff
    ≤ 1
push_backoff-run_example = push_backoff-run plain true access_once (5 ∷ []) events
