-- ===== src/Persistence/Clock.antt =====
-- The time of a row, in nanoseconds as an i64.
use cryptomeria.Common.{ℕ, ◌*◌, ◌≤◌, ◌≡◌, arith}
use cryptomeria.Common.Int.{pos}
use cryptomeria.Persistence.{timestamp_nanos}

-- Up to 9223372036854 milliseconds after the epoch (in the year 2262), the time of a row is the
-- time of its message in nanoseconds.
pub timestamp_nanos-exact :
    (ts_ms : ℕ) → ts_ms ≤ 9_223_372_036_854 → timestamp_nanos ts_ms ≡ pos (ts_ms * 1_000_000)
unfolding timestamp_nanos
timestamp_nanos-exact ts_ms h = ground arith
