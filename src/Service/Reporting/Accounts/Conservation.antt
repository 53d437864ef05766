-- ===== src/Service/Reporting/Accounts/Conservation.antt =====
-- The conservation of traffic over the whole loop of internal/service/service.go.
use xboard_node_plus.Tracker.{new, Pair, zero_pair, process}
use xboard_node_plus.Tracker.Traffic.{amount-process, process-IsSound}
use xboard_node_plus.Service.Reporting.{
  Reporter, Event, track, report, report_done, access_report, access_done, devices, new_reporter,
  step, run,
}
use xboard_node_plus.Prelude.{
  lookup, ℕ, Bool, List, [], ◌∷◌, Map, Str, All, arith, ◌≡◌, refl, nat_eq,
}
use xboard_node_plus.Service.Reporting.Accounts.{account, Meter, meter_step, meter, IsReading}
use xboard_node_plus.Service.Reporting.Accounts.Handlers.{
  Kept, push_report_async-Kept, finish_push-Kept, push_access_async-Kept, finish_access-Kept,
  report_devices-Kept,
}

module _ {K A : Type 0} (digest : Str → Str) (supports_reporting : Bool)
    (flush_recent_access : K → List A × K) (uid : ℕ) where
  track-Kept :
      (cum : Map ℕ Pair) (alive : Map ℕ (Map Str Bool)) (conns : ℕ) (s : Reporter K A) (m : Meter)
      → IsReading (track cum alive conns)
      → Kept uid s m
      → Kept uid
          (record s { tracker = process cum alive conns s.tracker })
          (meter_step uid (track cum alive conns) m)
  unfolding meter_step
  track-Kept cum alive conns s m r h =
      let a = amount-process cum alive conns s.tracker r.0 r.1 h.sound uid in
      record {
        sound = process-IsSound cum alive conns s.tracker r.0 r.1 h.sound;
        sent = h.sent;
        idle = h.idle;
        quiet = h.quiet;
        last = ground (arith, a.1, h.last);
        total = ground (arith, a.0, h.total, h.last);
      }

  step-Kept :
      (e : Event) (s : Reporter K A) (m : Meter)
      → IsReading e
      → Kept uid s m
      → Kept uid (step digest supports_reporting flush_recent_access e s) (meter_step uid e m)
  unfolding step meter_step
  step-Kept (track cum alive conns) s m r h = track-Kept cum alive conns s m r h
  step-Kept report s m r h =
      push_report_async-Kept digest supports_reporting flush_recent_access uid s m h
  step-Kept (report_done ok) s m r h =
      finish_push-Kept digest supports_reporting flush_recent_access uid ok s.push_in_flight s m
        refl h
  step-Kept access_report s m r h =
      push_access_async-Kept digest supports_reporting flush_recent_access uid s m h
  step-Kept (access_done ok) s m r h =
      finish_access-Kept digest supports_reporting flush_recent_access uid ok s.access_in_flight s m
        refl h
  step-Kept (devices connected) s m r h =
      report_devices-Kept digest supports_reporting flush_recent_access uid connected s m h

  run-Kept :
      (es : List Event) (s : Reporter K A) (m : Meter)
      → All IsReading es
      → Kept uid s m
      → Kept uid (run digest supports_reporting flush_recent_access es s) (meter uid es m)
  unfolding run meter
  run-Kept [] s m r h = h
  run-Kept (e ∷ es) s m r h = run-Kept es _ _ r.1 (step-Kept e s m r.0 h)

  new-Kept :
      (k : K)
      → Kept uid
          (new_reporter digest supports_reporting flush_recent_access k)
          (zero_pair, zero_pair)
  unfolding new_reporter new lookup
  new-Kept k = record {
    sound = record { counters = λ j. omega arith; words = λ j. omega arith; distinct = tt };
    sent = tt;
    idle = λ _. refl;
    quiet = tt;
    last = refl;
    total = refl;
  }

  -- Over any sequence of the loop's events, with reports that fail or succeed at any point, what the
  -- panel took for a user, what is under way and what is pending add up to the bytes between the
  -- kernel's readings of that user. Each reading lists no user twice, and its counters are nonnegative.
  pub account-run :
      (k : K) (es : List Event)
      → All IsReading es
      → account uid (
          run digest supports_reporting flush_recent_access es
            (new_reporter digest supports_reporting flush_recent_access k))
        ≡ (meter uid es (zero_pair, zero_pair)).1
  account-run k es r = (run-Kept es _ _ r (new-Kept k)).total
