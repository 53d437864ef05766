-- ===== src/Service/Backoff.antt =====
-- apiBackoff of internal/service/service.go. The counter starts at 0 and is lowered only above 0,
-- so it is a natural number.
use xboard_node_plus.Prelude.{
  arith, ◌≡◌, ◌≤◌, ℕ, ◌-◌, ◌*◌, Bool, true, false, ltb, leb, if◌then◌else◌,
}

-- Whether to skip this round, and the counter after it.
unfoldable pub should_skip : ℕ → Bool × ℕ
should_skip remaining = if ltb 0 remaining then (true, remaining - 1) else (false, remaining)

unfoldable pub on_success : ℕ → ℕ
on_success remaining = 0

unfoldable pub on_failure : ℕ → ℕ
on_failure remaining =
    if leb remaining 0 then 1 else if ltb remaining 8 then remaining * 2 else remaining

pub should_skip-pause : (b : ℕ) → ((should_skip b).1 ≡ b - 1) × ((should_skip b).0 ≡ false → b ≡ 0)
unfolding should_skip
should_skip-pause b = ground arith

pub on_success-pause : (b : ℕ) → on_success b ≤ 1
unfolding on_success
on_success-pause b = omega arith

pub on_failure-pause : (b : ℕ) → b ≡ 0 → on_failure b ≤ 1
unfolding on_failure
on_failure-pause b h = ground (arith, h)
