-- ===== src/Client/Delivery/Denied.antt =====
-- Whether a recipient may be tried again, by the configuration of its domain
-- (crates/sentio-smtp-client/src/delivery.rs, crates/sentio-queue/src/retry.rs).
use sentio.Common.{
  ℕ, ◌*◌, ◌%◌, ◌≤◌, false, ◌∷◌, ◌++◌, Option, none, some, All, ◌≡◌, ◌≢◌, refl, sym, subst, ◌↔◌, ◌⊎◌,
  inl, inr, arith, Option-cases,
}
use sentio.Common.Text.{Text, rsplit_once, u64_mod}
use sentio.Common.Text.Rsplit.{
  rsplit_once_whole, rsplit_once-append, rsplit_once_absent, rsplit_once_joins,
}
use sentio.Queue.Retry.{
  DomainRetryOverride, DeliveryConfig, RetryPolicy, get, from_delivery_config,
  from_delivery_config_for_domain, should_retry,
}
use sentio.Client.Delivery.{policy_domain, may_retry}

-- The domain of a recipient, as it is written: what is behind its last at sign, or all of it without one.
abbrev pub IsAt : (recipient domain : Text) → Type 0
IsAt recipient domain =
    ((user : Text) × (recipient ≡ user ++ b'@' ∷ domain) × All (λ c. c ≢ b'@') domain)
    ⊎ (All (λ c. c ≢ b'@') recipient × (recipient ≡ domain))

-- The number of retries for a domain: its own, if the configuration has one, or that for all.
abbrev pub retries_of : Option DomainRetryOverride → (default : ℕ) → ℕ
retries_of none default = default
retries_of (some overrides) default = elim overrides.max_retries [ none ↦ default | some n ↦ n ]

-- The lifetime of a message in milliseconds, as an unsigned number of 64 bits.
abbrev pub lifetime_ms : DeliveryConfig → ℕ
lifetime_ms config = config.queue_lifetime_days * 24 * 3600 * 1000 % u64_mod

-- A recipient has used up the retries of its domain, or the message has used up its lifetime.
abbrev pub Denied : DeliveryConfig → (retry_count elapsed_ms : ℕ) → (recipient : Text) → Type 0
Denied config retry_count elapsed_ms recipient =
    (domain : Text) × IsAt recipient domain
    × ((retries_of (get domain config.domain_overrides) config.max_retries ≤ retry_count)
        ⊎ (lifetime_ms config ≤ elapsed_ms))

policy_domain-IsAt : (recipient : Text) → IsAt recipient (policy_domain recipient)
unfolding policy_domain
policy_domain-IsAt recipient = cases (rsplit_once b'@' recipient) refl
  where
    cases :
        (o : Option (Text × Text))
        → rsplit_once b'@' recipient ≡ o
        → IsAt recipient (elim o [ some (user, d) ↦ d | none ↦ recipient ])
    cases none e = inr (rsplit_once_absent b'@' recipient e, refl)
    cases (some (user, name)) e =
        (let joined = rsplit_once_joins b'@' recipient user name e in
          inl (user, joined.0, joined.1))

IsAt-policy_domain :
    (recipient domain : Text) → IsAt recipient domain → policy_domain recipient ≡ domain
unfolding policy_domain
IsAt-policy_domain recipient domain (inl (user, e, h)) =
    subst (λ s. policy_domain s ≡ domain) (sym e)
      (rw (rsplit_once-append b'@' user domain h, policy_domain) refl)
IsAt-policy_domain recipient domain (inr (h, e)) =
    rw (rsplit_once_whole b'@' recipient h, policy_domain) e

refuses_iff :
    (p : RetryPolicy) (attempt elapsed : ℕ)
    → (should_retry p attempt (some elapsed) ≡ false)
      ↔ ((p.max_retries ≤ attempt) ⊎ (p.queue_lifetime_ms ≤ elapsed))
unfolding should_retry
refuses_iff p attempt elapsed = ground arith

module _ (draw : ℕ → ℕ) (config : DeliveryConfig) where
  policy_of_domain :
      (domain : Text)
      → let p = from_delivery_config_for_domain draw config domain in
        (p.max_retries ≡ retries_of (get domain config.domain_overrides) config.max_retries)
        × (p.queue_lifetime_ms ≡ lifetime_ms config)
  unfolding from_delivery_config_for_domain from_delivery_config
  policy_of_domain domain = elim (Option-cases (get domain config.domain_overrides)) [
    | inl n ↦ ground (arith, n)
    | inr (overrides, s) ↦ elim (Option-cases overrides.max_retries) [
      | inl n ↦ ground (arith, s, n)
      | inr (m, t) ↦ ground (arith, s, t)
    ]
  ]

  should_retry-Denied :
      (retry_count elapsed_ms : ℕ) (domain : Text)
      → (should_retry
            (from_delivery_config_for_domain draw config domain)
            retry_count
            (some elapsed_ms)
          ≡ false)
        ↔ ((retries_of (get domain config.domain_overrides) config.max_retries ≤ retry_count)
            ⊎ (lifetime_ms config ≤ elapsed_ms))
  should_retry-Denied retry_count elapsed_ms domain =
      let p = from_delivery_config_for_domain draw config domain in
      let r = policy_of_domain domain in
      subst
        (λ m.
          (should_retry p retry_count (some elapsed_ms) ≡ false)
          ↔ ((m ≤ retry_count) ⊎ (lifetime_ms config ≤ elapsed_ms)))
        r.0
        (subst
          (λ m.
            (should_retry p retry_count (some elapsed_ms) ≡ false)
            ↔ ((p.max_retries ≤ retry_count) ⊎ (m ≤ elapsed_ms)))
          r.1 (refuses_iff p retry_count elapsed_ms))

  pub may_retry-Denied :
      (retry_count elapsed_ms : ℕ) (recipient : Text)
      → (may_retry draw config recipient retry_count elapsed_ms ≡ false)
        ↔ Denied config retry_count elapsed_ms recipient
  may_retry-Denied retry_count elapsed_ms recipient = (
    λ e. (
      policy_domain recipient,
      policy_domain-IsAt recipient,
      (should_retry-Denied retry_count elapsed_ms (policy_domain recipient)).0 e,
    ),
    λ (domain, at, h).
        subst
          (λ name.
            should_retry (from_delivery_config_for_domain draw config name) retry_count
              (some elapsed_ms)
            ≡ false)
          (sym (IsAt-policy_domain recipient domain at))
          ((should_retry-Denied retry_count elapsed_ms domain).1 h),
  )
