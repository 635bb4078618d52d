-- ===== src/Traits/Backoff.antt =====
-- `backoff_delay` of rs/src/traits/mod.rs. The code computes `1000.0 * 2.0.powi(attempt as i32)` in
-- `f64` and casts the smaller of it and 60000.0 to `u64`. A product with a power of two is exact
-- there or infinite, so the model computes it on ℕ; the cast to `i32` makes an attempt from 2^31 on
-- a negative exponent, a division that the cast to `u64` rounds down.
pub mod Bounds
use cryptomeria.Common.{
  ℕ, zero, suc, ◌+◌, ◌-◌, ◌*◌, ◌/◌, ◌^◌, ◌≤◌, ◌<◌, min, if◌then◌else◌, ltb, ◌≡◌, arith,
}

abbrev pub initial_backoff_ms : ℕ
initial_backoff_ms = 1000

abbrev pub max_backoff_ms : ℕ
max_backoff_ms = 60_000

abbrev pub jitter_ms : ℕ
jitter_ms = 1000

-- `attempt` is a `u32`. The delay without its jitter.
unfoldable pub base_ms : ℕ → ℕ
base_ms attempt =
    if ltb attempt (2 ^ 31)
    then min (initial_backoff_ms * 2 ^ attempt) max_backoff_ms
    else initial_backoff_ms / 2 ^ (2 ^ 32 - attempt)

-- `jitter` is the number that `gen_range(0..JITTER_MS)` returns.
unfoldable pub backoff_delay : ℕ → ℕ → ℕ
unfolding base_ms
backoff_delay attempt jitter = base_ms attempt + jitter
