-- ===== src/Queue/Retry/Delays.antt =====
-- The delays of crates/sentio-queue/src/retry.rs stay under the cap, and double up to it.
use native.Mathlib.Nat.{pow-le-pow_right, mul-le-mul}
use sentio.Common.{
  ℕ, zero, suc, ◌+◌, ◌*◌, ◌^◌, ◌≤◌, ◌<◌, ◌↔◌, min, true, Option, none, some, ◌≡◌, arith,
}
use sentio.Common.Text.{u64_mod}
use sentio.Queue.Retry.{
  BounceClass, block, RetryPolicy, saturating_mul, shift_or_max, get_elem?, early_retry_schedule_ms,
  backoff, multiplied, compute_delay_ms_with_class, should_retry,
}

multiplied_bound :
    (p : RetryPolicy) (attempt : ℕ) (c : Option BounceClass)
    → multiplied p attempt c ≤ p.max_delay_ms
unfolding multiplied
multiplied_bound p attempt (some block) = omega arith
multiplied_bound p attempt _ = omega arith

-- No delay is above the cap, whatever the jitter draws.
pub compute_delay_ms_bound :
    (p : RetryPolicy) (attempt : ℕ) (c : Option BounceClass)
    → compute_delay_ms_with_class p attempt c ≤ p.max_delay_ms
unfolding compute_delay_ms_with_class
compute_delay_ms_bound p attempt c = ground (arith, multiplied_bound p attempt c)

-- A message whose time in the queue is known is tried again just while it has retries left and that
-- time is below the lifetime.
pub should_retry_iff :
    (p : RetryPolicy) (attempt elapsed : ℕ)
    → (should_retry p attempt (some elapsed) ≡ true)
      ↔ ((attempt < p.max_retries) × (elapsed < p.queue_lifetime_ms))
unfolding should_retry
should_retry_iff p attempt elapsed = ground arith

late : (k : ℕ) → get_elem? early_retry_schedule_ms (5 + k) ≡ none
late k = ground arith

-- Past 63 doublings, the product is above every u64, unless it is of nothing.
product_large : (base k : ℕ) → 64 ≤ k → 0 < base → u64_mod ≤ base * 2 ^ k
product_large base k h b = mul-le-mul {n₁ = 1} {m₁ = 2 ^ 64} b (pow-le-pow_right (omega arith) h)

saturating_mul_lem :
    (base k max : ℕ)
    → max < u64_mod
    → min (saturating_mul base (shift_or_max k)) max ≡ min (base * 2 ^ k) max
unfolding saturating_mul shift_or_max
saturating_mul_lem zero k max h = ground arith
saturating_mul_lem (suc b) k max h =
    ground (arith, λ (large : 64 ≤ k). product_large (suc b) k large (omega arith))

-- Behind the early schedule, with no jitter and no class, and with a cap below 2 ^ 64, each attempt doubles the base delay
-- once more, up to the cap; the arithmetic of 64 bits does not show.
pub compute_delay_ms_doubles :
    (p : RetryPolicy) (k : ℕ)
    → p.jitter ≡ none
    → p.max_delay_ms < u64_mod
    → compute_delay_ms_with_class p (5 + k) none ≡ min (p.base_delay_ms * 2 ^ k) p.max_delay_ms
unfolding compute_delay_ms_with_class multiplied backoff
compute_delay_ms_doubles p k j h =
    ground (arith, late k, saturating_mul_lem p.base_delay_ms k p.max_delay_ms h)
