-- ===== src/Client/Tests.antt =====
-- The delivery of the client at concrete inputs.
use sentio.Common.{ℕ, is_some, List, [], ◌∷◌, none, some, ◌≡◌, ◌↔◌, true, refl}
use sentio.Common.Text.{Text, codes, same, starts_with}
use sentio.Common.Text.Lines.{to_ascii_lowercase, to_ascii_lower, contains_text}
use sentio.Queue.Retry.{
  DeliveryConfig, soft, block, compute_delay_ms_with_class, from_delivery_config_for_domain, get,
  from_delivery_config, multiplied, backoff,
}
use sentio.Client.Bounces.{classify_bounce, is_sender_reputation_reject, contains_any}
use sentio.Client.Delivery.{
  DeliveryOutcome, delivered, deferred, group_by_domain, longest_delay, deferred_retry_delay,
  retry_budget_exhausted,
}
use sentio.Client.Pool.{
  PoolConfig, PooledEntry, ConnectionPool, new, find_domain, put_domain, entry, take_permit,
  acquire_global, acquire_domain, acquire_permit, is_valid, pop_valid, checkout, retain_valid,
  cleanup_domains, cleanup_expired,
}
use sentio.Client.Pool.Idle.{Popped, checkout_lem}
use sentio.Client.Delivery.Groups.{Distinct, members, HasDomain, Selected, group_by_domain_lem}
use sentio.Client.Delivery.Budget.{
  AnyDeferred, AllDenied, Waits, retry_budget_exhausted_iff, deferred_retry_delay-Waits,
}

abbrev recipients : List Text
recipients = codes "a@X.org" ∷ codes "b@y.org" ∷ codes "c@x.org" ∷ []

group_by_domain_lem_example :
    Distinct (group_by_domain to_ascii_lowercase recipients)
    × ((domain : Text)
        → Selected
            (HasDomain to_ascii_lowercase domain)
            recipients
            (members domain (group_by_domain to_ascii_lowercase recipients)))
group_by_domain_lem_example = group_by_domain_lem to_ascii_lowercase recipients

abbrev config : DeliveryConfig
config = record {
  max_retries = 3;
  retry_base_secs = 60;
  retry_max_secs = 3600;
  queue_lifetime_days = 5;
  domain_overrides = [];
}

abbrev outcomes : List (Text × DeliveryOutcome)
outcomes =
    (codes "a@x.org", deferred (codes "450 later") (codes "mx.x.org") soft 0 0)
    ∷ (codes "b@y.org", delivered (codes "250 OK") (codes "mx.y.org"))
    ∷ []

retry_budget_exhausted_iff_example :
    (retry_budget_exhausted (λ ms. ms) config 5000 outcomes 3 (some 1000) ≡ true)
    ↔ (AnyDeferred (λ ms. ms) config 3 outcomes × AllDenied (λ ms. ms) config 3 4000 outcomes)
retry_budget_exhausted_iff_example =
    retry_budget_exhausted_iff (λ ms. ms) config 3 5000 outcomes (some 1000)

first_delay : deferred_retry_delay (λ ms. ms) config outcomes 0 ≡ some 180_000
unfolding deferred_retry_delay longest_delay compute_delay_ms_with_class
    from_delivery_config_for_domain get from_delivery_config multiplied backoff
first_delay = refl

waits : Waits (λ ms. ms) config 0 180_000 outcomes
waits = deferred_retry_delay-Waits (λ ms. ms) config 0 outcomes 180_000 first_delay

-- A block list in the text of a reply is not held against the recipient.
listed : classify_bounce 550 (some (codes "5.1.1")) (some (codes "550 blocked by Spamhaus")) ≡ block
unfolding classify_bounce is_sender_reputation_reject contains_any contains_text to_ascii_lowercase
    starts_with to_ascii_lower
listed = refl

-- A pool that allows one connection to each destination, with one that is out.
abbrev one_each : PoolConfig
one_each = record {
  max_connections = 10;
  max_connections_per_dest = 1;
  idle_timeout = 5;
  max_connection_age = 50;
}

abbrev held : ConnectionPool ℕ
held = record {
  config = one_each;
  global = 9;
  semaphores = 0 ∷ [];
  domains = (codes "a.org", record { idle = []; semaphore = 0 }) ∷ [];
}

first_permit :
    acquire_permit ℕ (codes "a.org") (new ℕ one_each) ≡ some (record { domain = 0 }, held)
unfolding acquire_permit acquire_global entry find_domain put_domain acquire_domain take_permit
first_permit = refl

-- A second one has to wait, but not once the pool has been cleaned up.
second_permit_waits : acquire_permit ℕ (codes "a.org") held ≡ none
unfolding acquire_permit acquire_global entry find_domain acquire_domain take_permit same
second_permit_waits = refl

second_permit_after_cleanup :
    is_some (acquire_permit ℕ (codes "a.org") (cleanup_expired ℕ 0 held).1) ≡ true
unfolding cleanup_expired cleanup_domains retain_valid acquire_permit acquire_global entry
    find_domain put_domain acquire_domain take_permit
second_permit_after_cleanup = refl

-- Of two idle connections the last one is too old.
abbrev young : PooledEntry ℕ
young = record { stream = 1; created_at = 80; last_used = 97 }

abbrev old : PooledEntry ℕ
old = record { stream = 2; created_at = 10; last_used = 99 }

abbrev idle_pool : ConnectionPool ℕ
idle_pool = record held {
  domains = (codes "a.org", record { idle = old ∷ young ∷ []; semaphore = 0 }) ∷ [];
}

checkout_lem_example :
    (rest : List (PooledEntry ℕ)) × Popped ℕ one_each 100 (old ∷ young ∷ []) rest 1
    × (find_domain ℕ (codes "a.org") (checkout ℕ 100 (codes "a.org") idle_pool).1.domains
        ≡ some (record { idle = rest; semaphore = 0 }))
unfolding find_domain checkout pop_valid is_valid same
checkout_lem_example =
    checkout_lem ℕ 100 (codes "a.org") idle_pool (record { idle = old ∷ young ∷ []; semaphore = 0 })
      1 refl refl
