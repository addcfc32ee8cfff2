-- ===== src/RateLimit/Lockout/Backoff.antt =====
-- How long a lockout lasts.
use native.Mathlib.Nat.{pow-suc}
use scout_off_backend.Prelude.{ℕ, suc, ◌-◌, ◌*◌, ◌^◌, ◌≤◌, ◌≡◌, min, arith}
use scout_off_backend.RateLimit.Lockout.{Settings, compute_lockout_ms}

doubled : (base n : ℕ) → base * 2 ^ suc n ≡ 2 * (base * 2 ^ n)
doubled base n = rw pow-suc (omega arith)

-- At the threshold a lockout lasts the base time, or the maximum if that is less; one more failure,
-- at the threshold or above it, doubles it as long as that stays within the maximum, and otherwise
-- makes it the maximum.
pub compute_lockout_ms-doubles :
    (s : Settings) (failures : ℕ)
    → s.threshold ≤ failures
    → (compute_lockout_ms s s.threshold ≡ min s.base_ms s.max_ms)
      × (compute_lockout_ms s (suc failures) ≡ min (2 * compute_lockout_ms s failures) s.max_ms)
unfolding compute_lockout_ms
compute_lockout_ms-doubles s failures h =
    let none_more : s.threshold - s.threshold ≡ 0 = omega arith in
    let one_more : suc failures - s.threshold ≡ suc (failures - s.threshold) = omega arith in
    (
      rw none_more (omega arith),
      rw one_more (rw (doubled s.base_ms (failures - s.threshold)) (omega arith)),
    )
