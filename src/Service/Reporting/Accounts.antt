-- ===== src/Service/Reporting/Accounts.antt =====
-- No byte is lost or counted twice between the kernel's counters and the panel, over the handlers of
-- internal/service/service.go that report traffic.
pub mod Handlers
pub mod Conservation
use mathlib.Core.Path.{subst}
use xboard_node_plus.Tracker.Keeps.{
  restore_traffic-seen, flush_traffic_lem, flush_alive_ips-same, restore_alive_ips-same,
}
use xboard_node_plus.Tracker.{
  new, restore_alive_ips, Tracker, Pair, zero_pair, flush_traffic, process, restore_traffic,
}
use xboard_node_plus.Tracker.Traffic.{
  amount, ◌⊕◌, IsCounter, IsWord, gain_pair, ⊕_zero, IsSound, amount-process, process-IsSound,
  amount-restore, restore-IsSound,
}
use xboard_node_plus.Service.Reporting.{
  should_skip, Payload, Reporter, Event, track, report, report_done, access_report, access_done,
  devices, new_reporter, start_push, push_report_async, finish_push, push_access_async,
  finish_access, report_devices, step, run,
}
use xboard_node_plus.Prelude.{
  or_else, leb, not, length, lookup, ℕ, Bool, true, false, List, [], ◌∷◌, Option, none, some, Map,
  Str, has, Distinct, All, arith, ◌≡◌, refl, inl, inr, Bool-cases, if◌then◌else◌, nat_eq, ltb, ◌∙◌,
  sym,
}

-- What the panel took of a user's traffic.
abbrev pub taken_of : {A : Type 0} → ℕ → List (Payload A) → Pair
taken_of uid [] = zero_pair
taken_of uid (p ∷ ps) = taken_of uid ps ⊕ amount uid p.traffic

abbrev pub in_flight_of : {A : Type 0} → ℕ → Option (Payload A) → Pair
in_flight_of uid none = zero_pair
in_flight_of uid (some p) = amount uid p.traffic

-- A user's traffic, wherever it is: with the panel, under way, or pending.
abbrev pub account : {K A : Type 0} → ℕ → Reporter K A → Pair
account uid s =
    taken_of uid s.taken ⊕ in_flight_of uid s.push_in_flight ⊕ amount uid s.tracker.pending_traffic

-- The readings of the kernel alone: the last one of a user, and the bytes between the readings.
abbrev pub Meter : Type 0
Meter = Pair × Pair

pub meter_step : ℕ → Event → Meter → Meter
meter_step uid (track cum alive conns) (last, total) =
    if has uid cum then (amount uid cum, total ⊕ gain_pair (amount uid cum) last) else (last, total)
meter_step uid _ m = m

pub meter : ℕ → List Event → Meter → Meter
meter uid [] m = m
meter uid (e ∷ es) m = meter uid es (meter_step uid e m)

-- A reading of the kernel is a Go map of nonnegative counters.
abbrev pub IsReading : Event → Type 0
IsReading (track cum alive conns) = Distinct cum × All (λ e. IsCounter e.1) cum
IsReading _ = Unit
