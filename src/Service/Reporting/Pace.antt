-- ===== src/Service/Reporting/Pace.antt =====
-- The pauses that apiBackoff makes between the reports of internal/service/service.go.
use mathlib.Core.Path.{subst}
use xboard_node_plus.Prelude.{
  ℕ, ◌≤◌, Bool, true, false, List, [], ◌∷◌, Option, none, some, Str, ◌≡◌, refl, arith,
  if◌then◌else◌, not, leb, length,
}
use xboard_node_plus.Service.Backoff.{
  on_success-pause, should_skip, should_skip-pause, on_failure-pause,
}
use xboard_node_plus.Service.Reporting.{
  Payload, Reporter, Event, track, report, report_done, access_report, access_done, devices,
  new_reporter, start_push, push_report_async, finish_push, push_access_async, finish_access,
  report_devices, step, run,
}

-- While a report is under way no pause is left.
abbrev IsPaced : {A : Type 0} → Option (Payload A) → ℕ → Type 0
IsPaced none b = b ≤ 1
IsPaced (some p) b = b ≡ 0

abbrev Paced : {K A : Type 0} → Reporter K A → Type 0
Paced s = IsPaced s.push_in_flight s.push_backoff

Paced-if :
    {K A : Type 0} (c : Bool) (x y : Reporter K A)
    → (c ≡ true → Paced x)
    → (c ≡ false → Paced y)
    → Paced (if c then x else y)
Paced-if true x y h k = h refl
Paced-if false x y h k = k refl

IsPaced-skip :
    {A : Type 0} (o : Option (Payload A)) (b : ℕ) → IsPaced o b → IsPaced o (should_skip b).1
IsPaced-skip none b h = ground (arith, should_skip-pause b)
IsPaced-skip (some p) b h = ground (arith, should_skip-pause b)

IsPaced-bound : {A : Type 0} (o : Option (Payload A)) (b : ℕ) → IsPaced o b → b ≤ 1
IsPaced-bound none b h = h
IsPaced-bound (some p) b h = ground (arith, h)

module _ {K A : Type 0} (digest : Str → Str) (supports_reporting : Bool)
    (flush_recent_access : K → List A × K) where
  push_report_async-Paced :
      (s : Reporter K A)
      → Paced s
      → Paced (push_report_async digest supports_reporting flush_recent_access s)
  unfolding push_report_async start_push
  push_report_async-Paced s h =
      Paced-if (not supports_reporting) _ _ (λ _. h)
        (λ _.
          Paced-if s.push_active _ _ (λ _. h)
            (λ _.
              Paced-if (should_skip s.push_backoff).0 _ _
                (λ _. IsPaced-skip s.push_in_flight s.push_backoff h)
                (λ go. ground (arith, should_skip-pause s.push_backoff, go))))

  finish_push-Paced :
      (ok : Bool) (o : Option (Payload A)) (s : Reporter K A)
      → s.push_in_flight ≡ o
      → Paced s
      → Paced (finish_push digest supports_reporting flush_recent_access ok o s)
  unfolding finish_push
  finish_push-Paced ok none s e h = h
  finish_push-Paced true (some p) s e h = on_success-pause s.push_backoff
  finish_push-Paced false (some p) s e h =
      on_failure-pause s.push_backoff (subst (λ o. IsPaced o s.push_backoff) e h)

  push_access_async-Paced :
      (s : Reporter K A)
      → Paced s
      → Paced (push_access_async digest supports_reporting flush_recent_access s)
  unfolding push_access_async
  push_access_async-Paced s h =
      let skipped = IsPaced-skip s.push_in_flight s.push_backoff h in
      Paced-if (not supports_reporting) _ _ (λ _. h)
        (λ _.
          Paced-if (should_skip s.push_backoff).0 _ _ (λ _. skipped)
            (λ _.
              Paced-if s.access_push_active _ _ (λ _. skipped)
                (λ _.
                  Paced-if (leb (length (flush_recent_access s.kernel).0) 0) _ _ (λ _. skipped)
                    (λ _. skipped))))

  finish_access-Paced :
      (ok : Bool) (o : Option (Payload A)) (s : Reporter K A)
      → Paced s
      → Paced (finish_access digest supports_reporting flush_recent_access ok o s)
  unfolding finish_access
  finish_access-Paced ok none s h = h
  finish_access-Paced true (some p) s h = h
  finish_access-Paced false (some p) s h = h

  report_devices-Paced :
      (connected : Bool) (s : Reporter K A)
      → Paced s
      → Paced (report_devices digest supports_reporting flush_recent_access connected s)
  unfolding report_devices
  report_devices-Paced false s h = h
  report_devices-Paced true s h = h

  step-Paced :
      (e : Event) (s : Reporter K A)
      → Paced s
      → Paced (step digest supports_reporting flush_recent_access e s)
  unfolding step
  step-Paced (track cum alive conns) s h = h
  step-Paced report s h = push_report_async-Paced s h
  step-Paced (report_done ok) s h = finish_push-Paced ok s.push_in_flight s refl h
  step-Paced access_report s h = push_access_async-Paced s h
  step-Paced (access_done ok) s h = finish_access-Paced ok s.access_in_flight s h
  step-Paced (devices connected) s h = report_devices-Paced connected s h

  run-Paced :
      (es : List Event) (s : Reporter K A)
      → Paced s
      → Paced (run digest supports_reporting flush_recent_access es s)
  unfolding run
  run-Paced [] s h = h
  run-Paced (e ∷ es) s h = run-Paced es _ (step-Paced e s h)

  -- Over any sequence of the loop's events, however many reports in a row fail, the push backoff is
  -- at most 1: one round is skipped before the next report, and no more.
  pub push_backoff-run :
      (k : K) (es : List Event)
      → (run digest supports_reporting flush_recent_access es
          (new_reporter digest supports_reporting flush_recent_access k)).push_backoff
        ≤ 1
  unfolding new_reporter
  push_backoff-run k es =
      let s =
        run digest supports_reporting flush_recent_access es
          (new_reporter digest supports_reporting flush_recent_access k) in
      IsPaced-bound s.push_in_flight s.push_backoff (run-Paced es _ (omega arith))
