-- ===== src/Tests/Connections.antt =====
-- Delays between attempts.
use cryptomeria.Common.{◌≤◌, ◌<◌, arith}
use cryptomeria.Traits.Backoff.{backoff_delay}
use cryptomeria.Traits.Backoff.Bounds.{backoff_delay_bounds}

backoff_delay_bounds_example : (1000 ≤ backoff_delay 3 250) × (backoff_delay 3 250 < 61_000)
backoff_delay_bounds_example = backoff_delay_bounds 3 250 (omega arith) (omega arith)
