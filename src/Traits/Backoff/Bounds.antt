-- ===== src/Traits/Backoff/Bounds.antt =====
-- Bounds and growth of the delay of `backoff_delay`.
use native.Mathlib.Nat.{pow-suc, one-le-pow, pow-le-pow_right}
use cryptomeria.Common.{ℕ, suc, ◌+◌, ◌*◌, ◌^◌, ◌≤◌, ◌<◌, ◌≡◌, arith}
use cryptomeria.Traits.Backoff.{base_ms, backoff_delay}

pow-pos : (n : ℕ) → 1 ≤ 2 ^ n
pow-pos n = one-le-pow n 2 (omega arith)

pow_mono : (m n : ℕ) → m ≤ n → 2 ^ m ≤ 2 ^ n
pow_mono m n h = pow-le-pow_right (omega arith) h

-- For an attempt below 2^31 and a jitter below one second, the delay lies between one second and
-- 61 seconds.
pub backoff_delay_bounds :
    (attempt jitter : ℕ)
    → attempt < 2 ^ 31
    → jitter < 1000
    → (1000 ≤ backoff_delay attempt jitter) × (backoff_delay attempt jitter < 61_000)
unfolding backoff_delay base_ms
backoff_delay_bounds attempt jitter h j = ground (arith, pow-pos attempt)

-- With the same jitter, a later attempt below 2^31 never waits for less; the next one waits for at
-- most twice the time.
pub backoff_delay_mono :
    (a b jitter : ℕ)
    → a ≤ b
    → suc b < 2 ^ 31
    → (backoff_delay a jitter ≤ backoff_delay b jitter)
      × (backoff_delay (suc b) jitter ≤ 2 * backoff_delay b jitter)
unfolding backoff_delay base_ms
backoff_delay_mono a b jitter h k = ground (arith, pow_mono a b h, pow-suc 2 b)

-- From the seventh attempt on, below 2^31, the delay without its jitter is exactly 60 seconds, and
-- before that it doubles from one second.
pub backoff_delay_saturates :
    (attempt jitter : ℕ)
    → attempt < 2 ^ 31
    → (6 ≤ attempt → backoff_delay attempt jitter ≡ 60_000 + jitter)
      × (attempt < 6 → backoff_delay attempt jitter ≡ 1000 * 2 ^ attempt + jitter)
unfolding backoff_delay base_ms
backoff_delay_saturates attempt jitter h = (
  λ k. ground (arith, pow_mono 6 attempt k),
  λ k. ground (arith, pow_mono attempt 5 (omega arith)),
)
