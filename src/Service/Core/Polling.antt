-- ===== src/Service/Core/Polling.antt =====
-- internal/service/service.go: how often a poll of the panel is tried; Resync has when one starts.
pub mod Resync
use xboard_node_plus.Prelude.{
  Option-cases, ℕ, zero, suc, ◌+◌, ◌≤◌, ◌<◌, Bool, true, false, List, [], ◌∷◌, Option, none, some,
  ◌≡◌, ◌↔◌, refl, arith, if◌then◌else◌, All, ltb, Bool-cases, inl, inr,
}
use xboard_node_plus.Service.Backoff.{should_skip, on_success, on_failure}
use xboard_node_plus.Model.Values.{Slice}
use xboard_node_plus.Model.{NodeSpec, UserSpec}

pub record Snapshot : Type 0 where
  pub config : Option NodeSpec
  pub users : Slice UserSpec

pub data Polled : Type 0 where
  got : Snapshot → Polled
  gave_up : Polled
  cancelled : Polled

-- controlPlanePollAttempts
abbrev control_plane_poll_attempts : ℕ
control_plane_poll_attempts = 3

-- The panel's answer to each attempt, counted from 1, and whether the context ends in the pause
-- after it.
module _ (poll : ℕ → Option Snapshot) (ends : ℕ → Bool) where
  -- The loop with so many attempts left after this one; the result and the number of polls.
  unfoldable pub poll_from : ℕ → ℕ → Polled × ℕ
  poll_from zero attempt = elim (poll attempt) [ some s ↦ (got s, 1) | none ↦ (gave_up, 1) ]
  poll_from (suc left) attempt =
      let (r, n) = poll_from left (attempt + 1) in
      elim (poll attempt) [
        | some s ↦ (got s, 1)
        | none ↦ if ends attempt then (cancelled, 1) else (r, n + 1)
      ]

  unfoldable pub poll_control_plane_with_retry : Polled × ℕ
  unfolding poll_from
  poll_control_plane_with_retry = poll_from 2 1

  -- The first n attempts failed and the context did not end after them.
  abbrev pub Failed : ℕ → Type 0
  Failed zero = Unit
  Failed (suc n) = Failed n × (poll (n + 1) ≡ none) × (ends (n + 1) ≡ false)

  poll_control_plane-bounds :
      (1 ≤ poll_control_plane_with_retry.1)
      × (poll_control_plane_with_retry.1 ≤ control_plane_poll_attempts)
  unfolding poll_control_plane_with_retry poll_from
  poll_control_plane-bounds = ground arith

  -- The three places at which the loop can find a snapshot.
  abbrev pub Found : Snapshot → Type 0
  Found s = (n : ℕ) × (n < control_plane_poll_attempts) × Failed n × (poll (n + 1) ≡ some s)

  Found-third :
      (s : Snapshot)
      → (poll 1 ≡ none) × (ends 1 ≡ false) × (poll 2 ≡ none) × (ends 2 ≡ false)
      → poll_control_plane_with_retry.0 ≡ got s
      → Found s
  unfolding poll_control_plane_with_retry poll_from
  Found-third s (e1, f1, e2, f2) h =
      (2, omega arith, ((tt, e1, f1), e2, f2), ground (arith, h, e1, f1, e2, f2))

  Found-second :
      (s : Snapshot)
      → (poll 1 ≡ none) × (ends 1 ≡ false)
      → poll_control_plane_with_retry.0 ≡ got s
      → Found s
  unfolding poll_control_plane_with_retry poll_from
  Found-second s (e1, f1) h = elim (Option-cases (poll 2)) [
    | inr (a, e) ↦ (1, omega arith, (tt, e1, f1), ground (arith, h, e1, f1, e))
    | inl e ↦ elim (Bool-cases (ends 2)) [
      | inl f ↦ absurd (ground (arith, h, e1, f1, e, f))
      | inr f ↦ Found-third s (e1, f1, e, f) h
    ]
  ]

  poll_control_plane_sound : (s : Snapshot) → poll_control_plane_with_retry.0 ≡ got s → Found s
  unfolding poll_control_plane_with_retry poll_from
  poll_control_plane_sound s h = elim (Option-cases (poll 1)) [
    | inr (a, e) ↦ (0, omega arith, tt, ground (arith, h, e))
    | inl e ↦ elim (Bool-cases (ends 1)) [
      | inl f ↦ absurd (ground (arith, h, e, f))
      | inr f ↦ Found-second s (e, f) h
    ]
  ]

  poll_control_plane_complete : (s : Snapshot) → Found s → poll_control_plane_with_retry.0 ≡ got s
  unfolding poll_control_plane_with_retry poll_from
  poll_control_plane_complete s (zero, l, f, e) = ground (arith, e)
  poll_control_plane_complete s (suc zero, l, f, e) = ground (arith, e, f)
  poll_control_plane_complete s (suc (suc zero), l, f, e) = ground (arith, e, f)
  poll_control_plane_complete s (suc (suc (suc n)), l, f, e) = absurd (omega (arith, l))

  -- A poll gives a snapshot exactly when one of the three attempts does and, before it, every
  -- attempt failed and the context did not end in a pause. It asks the panel one to three times.
  pub poll_control_plane_iff :
      (s : Snapshot)
      → ((poll_control_plane_with_retry.0 ≡ got s) ↔ Found s)
        × (1 ≤ poll_control_plane_with_retry.1)
        × (poll_control_plane_with_retry.1 ≤ control_plane_poll_attempts)
  poll_control_plane_iff s = (
    (poll_control_plane_sound s, poll_control_plane_complete s),
    poll_control_plane-bounds.0,
    poll_control_plane-bounds.1,
  )
