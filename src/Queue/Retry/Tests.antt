-- ===== src/Queue/Retry/Tests.antt =====
-- A retry policy, and the instances of the theorems on the delays.
use sentio.Common.{◌≤◌, ◌<◌, ◌↔◌, ◌*◌, ◌^◌, ◌+◌, min, true, none, some, ◌≡◌, refl, arith}
use sentio.Queue.Retry.{RetryPolicy, block, compute_delay_ms_with_class, should_retry}
use sentio.Queue.Retry.Delays.{compute_delay_ms_bound, should_retry_iff, compute_delay_ms_doubles}

abbrev policy : RetryPolicy
policy = record {
  max_retries = 10;
  base_delay_ms = 30_000;
  max_delay_ms = 3_600_000;
  jitter = none;
  queue_lifetime_ms = 432_000_000;
}

compute_delay_ms_bound_example :
    compute_delay_ms_with_class
      (record policy { jitter = some (λ ms. ms + 900_000) })
      4
      (some block)
    ≤ 3_600_000
compute_delay_ms_bound_example =
    compute_delay_ms_bound (record policy { jitter = some (λ ms. ms + 900_000) }) 4 (some block)

third_attempt : (should_retry policy 3 (some 1000) ≡ true) ↔ ((3 < 10) × (1000 < 432_000_000))
third_attempt = should_retry_iff policy 3 1000

compute_delay_ms_doubles_example :
    compute_delay_ms_with_class policy (5 + 70) none ≡ min (30_000 * 2 ^ 70) 3_600_000
compute_delay_ms_doubles_example = compute_delay_ms_doubles policy 70 refl (omega arith)
