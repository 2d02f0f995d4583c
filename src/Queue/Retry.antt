-- ===== src/Queue/Retry.antt =====
-- The retry policy of the queue: crates/sentio-queue/src/retry.rs.
pub mod Delays
mod Tests
use sentio.Common.{
  ℕ, zero, suc, ◌+◌, ◌-◌, ◌*◌, ◌%◌, ◌^◌, min, Bool, true, false, List, [], ◌∷◌, Option, none, some,
  ltb, leb, if◌then◌else◌,
}
use sentio.Common.Text.{Text, same, u64_mod}

-- `BounceClass` of crates/sentio-core/src/event.rs.
pub data BounceClass : Type 0 where
  hard soft block : BounceClass

-- The overrides for one domain, and the part of `DeliveryConfig` of crates/sentio-core/src/config.rs
-- that the policy is made from.
pub record DomainRetryOverride : Type 0 where
  pub retry_base_secs : Option ℕ
  pub retry_max_secs : Option ℕ
  pub max_retries : Option ℕ

pub record DeliveryConfig : Type 0 where
  pub max_retries : ℕ
  pub retry_base_secs : ℕ
  pub retry_max_secs : ℕ
  pub queue_lifetime_days : ℕ
  pub domain_overrides : List (Text × DomainRetryOverride)

-- `jitter` stands for the floating-point part: `none` is a factor that is not positive, and `some f`
-- a draw, that makes a delay from a delay.
pub record RetryPolicy : Type 0 where
  pub max_retries : ℕ
  pub base_delay_ms : ℕ
  pub max_delay_ms : ℕ
  pub jitter : Option (ℕ → ℕ)
  pub queue_lifetime_ms : ℕ

-- `EARLY_RETRY_SCHEDULE_MS`.
abbrev pub early_retry_schedule_ms : List ℕ
early_retry_schedule_ms = 180_000 ∷ 300_000 ∷ 600_000 ∷ 900_000 ∷ 1_800_000 ∷ []

abbrev pub get_elem? {ℓ} : {A : Type ℓ} → List A → ℕ → Option A
get_elem? [] n = none
get_elem? (x ∷ xs) zero = some x
get_elem? (x ∷ xs) (suc n) = get_elem? xs n

-- `u64::saturating_mul`.
unfoldable pub saturating_mul : ℕ → ℕ → ℕ
saturating_mul a b = min (a * b) (u64_mod - 1)

-- `1u64.checked_shl(n).unwrap_or(u64::MAX)`.
unfoldable pub shift_or_max : ℕ → ℕ
shift_or_max n = if ltb n 64 then 2 ^ n else u64_mod - 1

unfoldable pub from_delivery_config : (ℕ → ℕ) → DeliveryConfig → RetryPolicy
from_delivery_config draw config = record {
  max_retries = config.max_retries;
  base_delay_ms = config.retry_base_secs * 1000 % u64_mod;
  max_delay_ms = config.retry_max_secs * 1000 % u64_mod;
  jitter = some draw;
  queue_lifetime_ms = config.queue_lifetime_days * 24 * 3600 * 1000 % u64_mod;
}

-- `HashMap::get`.
unfoldable pub get : Text → List (Text × DomainRetryOverride) → Option DomainRetryOverride
get domain [] = none
get domain ((name, overrides) ∷ more) = if same name domain then some overrides else get domain more

abbrev seconds_or : Option ℕ → ℕ → ℕ
seconds_or none ms = ms
seconds_or (some secs) ms = secs * 1000 % u64_mod

abbrev or_number : Option ℕ → ℕ → ℕ
or_number none n = n
or_number (some m) n = m

unfoldable pub from_delivery_config_for_domain : (ℕ → ℕ) → DeliveryConfig → Text → RetryPolicy
from_delivery_config_for_domain draw config domain =
    let base = from_delivery_config draw config in
    elim (get domain config.domain_overrides) [
      | some overrides ↦ record base {
        base_delay_ms = seconds_or overrides.retry_base_secs base.base_delay_ms;
        max_delay_ms = seconds_or overrides.retry_max_secs base.max_delay_ms;
        max_retries = or_number overrides.max_retries base.max_retries;
      }
      | none ↦ base
    ]

-- The delay before the cap: the early schedule, then exponential backoff.
unfoldable pub backoff : RetryPolicy → ℕ → ℕ
backoff p attempt = elim (get_elem? early_retry_schedule_ms attempt) [
  | some ms ↦ ms
  | none ↦ saturating_mul p.base_delay_ms (shift_or_max (attempt - 5))
]

-- The delay for a class, before the jitter.
unfoldable pub multiplied : RetryPolicy → ℕ → Option BounceClass → ℕ
multiplied p attempt (some block) =
    min (saturating_mul (min (backoff p attempt) p.max_delay_ms) 2) p.max_delay_ms
multiplied p attempt _ = min (backoff p attempt) p.max_delay_ms

unfoldable pub compute_delay_ms_with_class : RetryPolicy → ℕ → Option BounceClass → ℕ
compute_delay_ms_with_class p attempt bounce_class = elim p.jitter [
  | none ↦ multiplied p attempt bounce_class
  | some draw ↦ min (draw (multiplied p attempt bounce_class)) p.max_delay_ms
]

unfoldable pub compute_delay_ms : RetryPolicy → ℕ → ℕ
compute_delay_ms p attempt = compute_delay_ms_with_class p attempt none

abbrev has_expired : Option ℕ → ℕ → Bool
has_expired none lifetime = false
has_expired (some elapsed) lifetime = leb lifetime elapsed

unfoldable pub should_retry : RetryPolicy → ℕ → Option ℕ → Bool
should_retry p attempt elapsed_ms =
    if leb p.max_retries attempt
    then false
    else if has_expired elapsed_ms p.queue_lifetime_ms
    then false
    else true
