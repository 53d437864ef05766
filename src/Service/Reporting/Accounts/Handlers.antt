-- ===== src/Service/Reporting/Accounts/Handlers.antt =====
-- What each reporting handler of internal/service/service.go keeps of the traffic accounts.
use mathlib.Core.Path.{subst}
use xboard_node_plus.Tracker.Keeps.{
  restore_traffic-seen, flush_traffic_lem, flush_alive_ips-same, restore_alive_ips-same,
}
use xboard_node_plus.Tracker.{restore_alive_ips, Tracker, Pair, flush_traffic, restore_traffic}
use xboard_node_plus.Tracker.Traffic.{
  amount, ◌⊕◌, IsWord, ⊕_zero, IsSound, amount-restore, restore-IsSound,
}
use xboard_node_plus.Service.Reporting.{
  should_skip, Payload, Reporter, start_push, push_report_async, finish_push, push_access_async,
  finish_access, report_devices,
}
use xboard_node_plus.Prelude.{
  or_else, leb, not, length, lookup, ℕ, Bool, true, false, List, [], ◌∷◌, Option, none, some, Map,
  Str, Distinct, arith, ◌≡◌, refl, inl, inr, Bool-cases, if◌then◌else◌, nat_eq, ltb, ◌∙◌, sym,
}
use xboard_node_plus.Service.Reporting.Accounts.{taken_of, in_flight_of, account, Meter}

-- What the proof carries from step to step.
abbrev pub IsSent : {A : Type 0} → Option (Payload A) → Type 0
IsSent none = Unit
IsSent (some p) = Distinct p.traffic

abbrev pub IsQuiet : {A : Type 0} → Option (Payload A) → Type 0
IsQuiet none = Unit
IsQuiet (some p) = p.traffic ≡ []

pub record Kept {K A : Type 0} (uid : ℕ) (s : Reporter K A) (m : Meter) : Type 0 where
  pub sound : IsSound s.tracker.last_seen s.tracker.pending_traffic
  pub sent : IsSent s.push_in_flight
  pub idle : s.push_active ≡ false → s.push_in_flight ≡ none
  pub quiet : IsQuiet s.access_in_flight
  pub last : amount uid s.tracker.last_seen ≡ m.0
  pub total : account uid s ≡ m.1

-- An emptied account is sound.
IsSound-empty : (seen pending : Map ℕ Pair) → IsSound seen pending → IsSound seen []
unfolding lookup
IsSound-empty seen pending h = record {
  counters = h.counters;
  words = λ j. omega arith;
  distinct = tt;
}

nothing_lem :
    (j : ℕ) (ds : Map ℕ Pair) (p : Pair)
    → IsWord p
    → ltb 0 (length ds) ≡ false
    → p ≡ (p ⊕ amount j ds)
unfolding lookup
nothing_lem j [] p w e = sym (⊕_zero p w)
nothing_lem j (d ∷ ds) p w e = ground (arith, e)

-- The tracker after a failed report of `ds` and `alive`.
module _ (ds : Map ℕ Pair) (alive : Map ℕ (List Str)) (t : Tracker) (distinct : Distinct ds)
    (sound : IsSound t.last_seen t.pending_traffic) where
  abbrev back : Tracker
  back = if ltb 0 (length ds) then restore_traffic ds t else t

  abbrev back2 : Tracker
  back2 = if ltb 0 (length alive) then restore_alive_ips alive back else back

  back_lem :
      (back.last_seen ≡ t.last_seen)
      × IsSound back.last_seen back.pending_traffic
      × ((j : ℕ) → amount j back.pending_traffic ≡ (amount j t.pending_traffic ⊕ amount j ds))
  back_lem = elim (Bool-cases (ltb 0 (length ds))) [
    | inl some_traffic ↦ rw (some_traffic) (
      restore_traffic-seen ds t,
      restore-IsSound ds t distinct sound,
      λ j. amount-restore j ds t distinct (sound.words j),
    )
    | inr no_traffic ↦
        rw (no_traffic) (
          refl,
          sound,
          λ j. nothing_lem j ds (amount j t.pending_traffic) (sound.words j) no_traffic,
        )
  ]

  back2-same : (back2.last_seen ≡ back.last_seen) × (back2.pending_traffic ≡ back.pending_traffic)
  back2-same = elim (Bool-cases (ltb 0 (length alive))) [
    | inl some_alive ↦ rw (some_alive) (restore_alive_ips-same alive back)
    | inr none_alive ↦ rw (none_alive) (refl, refl)
  ]

Kept-if :
    {K A : Type 0} {uid : ℕ} {m : Meter} (c : Bool) (x y : Reporter K A)
    → (c ≡ true → Kept uid x m)
    → (c ≡ false → Kept uid y m)
    → Kept uid (if c then x else y) m
Kept-if true x y h k = h refl
Kept-if false x y h k = k refl

module _ {K A : Type 0} (digest : Str → Str) (supports_reporting : Bool)
    (flush_recent_access : K → List A × K) (uid : ℕ) where
  pub start_push-Kept :
      (s : Reporter K A) (m : Meter)
      → s.push_in_flight ≡ none
      → Kept uid s m
      → Kept uid (start_push digest supports_reporting flush_recent_access s) m
  unfolding start_push lookup
  start_push-Kept s m e h =
      let f = flush_traffic_lem s.tracker in
      let a = flush_alive_ips-same digest (flush_traffic s.tracker).1 in
      let seen = a.0 ∙ f.2 in
      let pending = a.1 ∙ f.1 in
      record {
        sound =
            rw (seen, pending)
              (IsSound-empty s.tracker.last_seen s.tracker.pending_traffic h.sound);
        sent = rw (f.0) h.sound.distinct;
        idle = λ c. ground (arith, c);
        quiet = h.quiet;
        last = rw (seen) h.last;
        total = rw (f.0, pending) (ground (arith, h.total, e));
      }

  set_backoff-Kept :
      (b : ℕ) (s : Reporter K A) (m : Meter)
      → Kept uid s m
      → Kept uid (record s { push_backoff = b }) m
  set_backoff-Kept b s m h = record {
    sound = h.sound;
    sent = h.sent;
    idle = h.idle;
    quiet = h.quiet;
    last = h.last;
    total = h.total;
  }

  pub push_report_async-Kept :
      (s : Reporter K A) (m : Meter)
      → Kept uid s m
      → Kept uid (push_report_async digest supports_reporting flush_recent_access s) m
  unfolding push_report_async
  push_report_async-Kept s m h =
      let (skip, b) = should_skip s.push_backoff in
      let skipped = set_backoff-Kept b s m h in
      Kept-if (not supports_reporting) _ _ (λ _. h)
        (λ _.
          Kept-if s.push_active _ _ (λ _. h)
            (λ inactive.
              Kept-if skip _ _ (λ _. skipped)
                (λ _. start_push-Kept (record s { push_backoff = b }) m (h.idle inactive) skipped)))

  total-in_flight :
      (o : Option (Payload A)) (s : Reporter K A) (m : Meter)
      → s.push_in_flight ≡ o
      → Kept uid s m
      → (taken_of uid s.taken ⊕ in_flight_of uid o ⊕ amount uid s.tracker.pending_traffic) ≡ m.1
  total-in_flight o s m e h =
      subst
        (λ o.
          (taken_of uid s.taken ⊕ in_flight_of uid o ⊕ amount uid s.tracker.pending_traffic) ≡ m.1)
        e h.total

  pub finish_push-Kept :
      (ok : Bool) (o : Option (Payload A)) (s : Reporter K A) (m : Meter)
      → s.push_in_flight ≡ o
      → Kept uid s m
      → Kept uid (finish_push digest supports_reporting flush_recent_access ok o s) m
  unfolding finish_push
  finish_push-Kept ok none s m e h = h
  finish_push-Kept true (some p) s m e h = record {
    sound = h.sound;
    sent = tt;
    idle = λ _. refl;
    quiet = h.quiet;
    last = h.last;
    total = ground (arith, total-in_flight (some p) s m e h);
  }
  finish_push-Kept false (some p) s m e h =
      let alive = or_else p.alive [] in
      let distinct = subst IsSent e h.sent in
      let b = back_lem p.traffic alive s.tracker distinct h.sound in
      let b2 = back2-same p.traffic alive s.tracker distinct h.sound in
      record {
        sound = rw (b2.0, b2.1) b.1;
        sent = tt;
        idle = λ _. refl;
        quiet = h.quiet;
        last = rw (b2.0, b.0) h.last;
        total = rw (b2.1, b.2 uid) (ground (arith, total-in_flight (some p) s m e h));
      }

  pub push_access_async-Kept :
      (s : Reporter K A) (m : Meter)
      → Kept uid s m
      → Kept uid (push_access_async digest supports_reporting flush_recent_access s) m
  unfolding push_access_async
  push_access_async-Kept s m h =
      let (skip, b) = should_skip s.push_backoff in
      let skipped = set_backoff-Kept b s m h in
      let (access, k) = flush_recent_access s.kernel in
      Kept-if (not supports_reporting) _ _ (λ _. h)
        (λ _.
          Kept-if skip _ _ (λ _. skipped)
            (λ _.
              Kept-if s.access_push_active _ _ (λ _. skipped)
                (λ _.
                  Kept-if (leb (length access) 0) _ _
                    (λ _. record {
                      sound = h.sound;
                      sent = h.sent;
                      idle = h.idle;
                      quiet = h.quiet;
                      last = h.last;
                      total = h.total;
                    })
                    (λ _. record {
                      sound = h.sound;
                      sent = h.sent;
                      idle = h.idle;
                      quiet = refl;
                      last = h.last;
                      total = h.total;
                    }))))

  pub finish_access-Kept :
      (ok : Bool) (o : Option (Payload A)) (s : Reporter K A) (m : Meter)
      → s.access_in_flight ≡ o
      → Kept uid s m
      → Kept uid (finish_access digest supports_reporting flush_recent_access ok o s) m
  unfolding finish_access lookup
  finish_access-Kept ok none s m e h = h
  finish_access-Kept true (some p) s m e h =
      let quiet = subst IsQuiet e h.quiet in
      record {
        sound = h.sound;
        sent = h.sent;
        idle = h.idle;
        quiet = tt;
        last = h.last;
        total = rw (quiet) (ground (arith, h.total));
      }
  finish_access-Kept false (some p) s m e h = record {
    sound = h.sound;
    sent = h.sent;
    idle = h.idle;
    quiet = tt;
    last = h.last;
    total = h.total;
  }

  pub report_devices-Kept :
      (connected : Bool) (s : Reporter K A) (m : Meter)
      → Kept uid s m
      → Kept uid (report_devices digest supports_reporting flush_recent_access connected s) m
  unfolding report_devices
  report_devices-Kept false s m h = h
  report_devices-Kept true s m h =
      let a = flush_alive_ips-same digest s.tracker in
      record {
        sound = rw (a.0, a.1) h.sound;
        sent = h.sent;
        idle = h.idle;
        quiet = h.quiet;
        last = rw (a.0) h.last;
        total = rw (a.1) h.total;
      }
