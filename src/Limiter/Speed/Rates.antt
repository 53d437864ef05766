-- ===== src/Limiter/Speed/Rates.antt =====
-- The rates that internal/limiter/speedtracker.go hands out.
use mathlib.Core.Option
use xboard_node_plus.Prelude.{nat_eq, str_eq, ℕ, Option, none, some, is_pos, ◌≡◌, if◌then◌else◌}
use xboard_node_plus.Model.{UserSpec}
use xboard_node_plus.Limiter.Speed.{bytes_per_sec, burst_of}

-- The rate and the burst of a user with a speed limit.
abbrev pub rate_of_user : UserSpec → Option (ℕ × ℕ)
rate_of_user u =
    if is_pos u.speed_limit
    then some (bytes_per_sec u.speed_limit, burst_of (bytes_per_sec u.speed_limit))
    else none

module _ {B : Type 0} (new_limiter : ℕ → ℕ → B) (set_limit set_burst : ℕ → B → B) where
  module _ (rate burst : B → ℕ) (rate-new : (r b : ℕ) → rate (new_limiter r b) ≡ r)
      (burst-new : (r b : ℕ) → burst (new_limiter r b) ≡ b)
      (rate-set_limit : (r : ℕ) (x : B) → rate (set_limit r x) ≡ r)
      (rate-set_burst : (b : ℕ) (x : B) → rate (set_burst b x) ≡ rate x)
      (burst-set_burst : (b : ℕ) (x : B) → burst (set_burst b x) ≡ b) where
    abbrev pub rates : Option B → Option (ℕ × ℕ)
    rates = Option.map (λ lim. (rate lim, burst lim))

    abbrev pub rate_at : Option UserSpec → Option (ℕ × ℕ)
    rate_at none = none
    rate_at (some u) = rate_of_user u

    abbrev found_rate : Option UserSpec → Option B → Option (ℕ × ℕ)
    found_rate u (some lim) = rates (some lim)
    found_rate u none = rate_at u
