-- ===== src/RateLimiter/Backoff.antt =====
-- src/ratelimiter.cpp, the doubling loop of recordFailure against its closed form.
use native.Mathlib.Nat.{pow-suc}
use harbour_localsend.Common.{ℕ, zero, suc, ◌+◌, ◌-◌, ◌*◌, ◌^◌, ◌≤◌, min, ◌≡◌, ap, arith}
use harbour_localsend.RateLimiter.{
  max_backoff_ms, base_backoff_ms, free_attempts, double_backoff, backoff_for,
}

pow_pos : (n : ℕ) → 1 ≤ 2 ^ n
pow_pos zero = omega arith
pow_pos (suc n) = rw (pow-suc 2 n) (omega (arith, pow_pos n))

le-mul-pow : (b n : ℕ) → b ≤ b * 2 ^ n
le-mul-pow b n = grind (arith, pow_pos n)

double_backoff-min :
    (rounds backoff : ℕ)
    → min (double_backoff rounds backoff) max_backoff_ms ≡ min (backoff * 2 ^ rounds) max_backoff_ms
unfolding double_backoff
double_backoff-min zero backoff = omega arith
double_backoff-min (suc rounds) backoff = rw (pow-suc 2 rounds) (
    ground (
      arith,
      double_backoff-min rounds (backoff * 2),
      le-mul-pow backoff (suc rounds),
      ap (λ (t : ℕ). backoff * t) (pow-suc 2 rounds),
    ))

-- The loop with its cap is the closed form: one second, doubled for each failure past the fourth,
-- and never more than a quarter of an hour.
pub backoff_for-min :
    (failures : ℕ)
    → backoff_for failures
      ≡ min (base_backoff_ms * 2 ^ (failures - (free_attempts + 1))) max_backoff_ms
unfolding backoff_for
backoff_for-min failures =
    ground (arith, double_backoff-min (failures - (free_attempts + 1)) base_backoff_ms)
