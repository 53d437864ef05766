-- ===== src/Service/Reporting.antt =====
-- The reporting half of the main loop of internal/service/service.go: trackAndEnforce,
-- pushReportAsync, pushAccessAsync and reportDevices over one tracker. The loop runs one handler at
-- a time; the goroutine of a push is the payload in flight and a later event that ends it. The panel
-- is the list of the payloads that it took. Host metrics, which a report also carries, are left out.
pub mod Accounts
pub mod Pace
use mathlib.Core.Option
use xboard_node_plus.Prelude.{
  ℕ, Bool, true, false, not, List, [], ◌∷◌, Option, none, some, Map, Str, ltb, leb, length,
  if◌then◌else◌, or_else,
}
use xboard_node_plus.Model.Values.{Slice, items}
use xboard_node_plus.Tracker
use xboard_node_plus.Tracker.{Tracker, Pair}
use xboard_node_plus.Service.Backoff.{should_skip, on_success, on_failure}

pub record Payload (A : Type 0) : Type 0 where
  pub traffic : Map ℕ Pair
  pub alive : Option (Map ℕ (List Str))
  pub online : Map ℕ ℕ
  pub access : List A

-- A kernel K hands out access events of type A.
pub record Reporter (K A : Type 0) : Type 0 where
  pub tracker : Tracker
  pub kernel : K
  pub push_backoff : ℕ
  pub push_active : Bool
  pub access_push_active : Bool
  pub push_in_flight : Option (Payload A)
  pub access_in_flight : Option (Payload A)
  pub taken : List (Payload A)

pub data Event : Type 0 where
  -- the kernel's counters, as GetUserTraffic returns them without an error
  track : Map ℕ Pair → Map ℕ (Map Str Bool) → ℕ → Event
  report : Event
  -- the report's goroutine ends, with success or not
  report_done : Bool → Event
  access_report : Event
  access_done : Bool → Event
  -- the device report, with the state of the push connection
  devices : Bool → Event

module _ {K A : Type 0} (digest : Str → Str) (supports_reporting : Bool)
    (flush_recent_access : K → List A × K) where
  pub new_reporter : K → Reporter K A
  new_reporter k = record {
    tracker = Tracker.new;
    kernel = k;
    push_backoff = 0;
    push_active = false;
    access_push_active = false;
    push_in_flight = none;
    access_in_flight = none;
    taken = [];
  }

  -- The flushes of pushReportAsync, once it may push.
  pub start_push : Reporter K A → Reporter K A
  start_push s =
      let (traffic, t1) = Tracker.flush_traffic s.tracker in
      let (alive, t2) = Tracker.flush_alive_ips digest t1 in
      let (access, k) = flush_recent_access s.kernel in
      record s {
        tracker = t2;
        kernel = k;
        push_active = true;
        push_in_flight = some (record {
          traffic = traffic;
          alive = alive;
          online = Tracker.current_online t2;
          access = access;
        });
      }

  pub push_report_async : Reporter K A → Reporter K A
  unfolding start_push
  push_report_async s =
      let (skip, b) = should_skip s.push_backoff in
      let skipped = record s { push_backoff = b } in
      if not supports_reporting
      then s
      else if s.push_active
      then s
      else if skip
      then skipped
      else start_push skipped

  -- The goroutine after sink.Report: a failed report goes back to the tracker.
  pub finish_push : Bool → Option (Payload A) → Reporter K A → Reporter K A
  finish_push ok none s = s
  finish_push true (some p) s = record s {
    push_active = false;
    push_in_flight = none;
    push_backoff = on_success s.push_backoff;
    taken = p ∷ s.taken;
  }
  finish_push false (some p) s =
      let t1 =
        if ltb 0 (length p.traffic)
        then Tracker.restore_traffic p.traffic s.tracker
        else s.tracker in
      let alive = or_else p.alive [] in
      let t2 = if ltb 0 (length alive) then Tracker.restore_alive_ips alive t1 else t1 in
      record s {
        tracker = t2;
        push_active = false;
        push_in_flight = none;
        push_backoff = on_failure s.push_backoff;
      }

  pub push_access_async : Reporter K A → Reporter K A
  push_access_async s =
      let (skip, b) = should_skip s.push_backoff in
      let skipped = record s { push_backoff = b } in
      let (access, k) = flush_recent_access s.kernel in
      let flushed = record s { push_backoff = b; kernel = k } in
      if not supports_reporting
      then s
      else if skip
      then skipped
      else if s.access_push_active
      then skipped
      else if leb (length access) 0
      then flushed
      else record s {
        push_backoff = b;
        kernel = k;
        access_push_active = true;
        access_in_flight =
            some (record { traffic = []; alive = none; online = []; access = access });
      }

  pub finish_access : Bool → Option (Payload A) → Reporter K A → Reporter K A
  finish_access ok none s = s
  finish_access true (some p) s = record s {
    access_push_active = false;
    access_in_flight = none;
    taken = p ∷ s.taken;
  }
  finish_access false (some p) s = record s { access_push_active = false; access_in_flight = none }

  -- sendDeviceBatch: the devices go out by the push connection, and nothing comes back.
  pub report_devices : Bool → Reporter K A → Reporter K A
  report_devices false s = s
  report_devices true s = record s { tracker = (Tracker.flush_alive_ips digest s.tracker).1 }

  pub step : Event → Reporter K A → Reporter K A
  unfolding push_report_async finish_push push_access_async finish_access report_devices
  step (track cum alive conns) s = record s { tracker = Tracker.process cum alive conns s.tracker }
  step report s = push_report_async s
  step (report_done ok) s = finish_push ok s.push_in_flight s
  step access_report s = push_access_async s
  step (access_done ok) s = finish_access ok s.access_in_flight s
  step (devices connected) s = report_devices connected s

  pub run : List Event → Reporter K A → Reporter K A
  run [] s = s
  run (e ∷ es) s = run es (step e s)
