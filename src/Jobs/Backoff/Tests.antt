-- ===== src/Jobs/Backoff/Tests.antt =====
-- The delays of the default configuration: five seconds, four times as long each time, one hour.
use egras.Prelude.{◌≡◌, ◌*◌, ◌/◌, ◌^◌, ◌-◌, min, arith}
use egras.Jobs.Backoff.{nanos, compute_backoff, compute_backoff-eq-min}

compute_backoff-eq-min_example :
    compute_backoff 3 (5 * nanos) 4 (3600 * nanos)
    ≡ min (3600 * nanos) (5 * nanos / nanos * 4 ^ (3 - 1) * nanos)
compute_backoff-eq-min_example = compute_backoff-eq-min 3 (5 * nanos) 4 (3600 * nanos) (omega arith)
