-- ===== src/Client/Delivery/Budget.antt =====
-- When a deferred message is tried again (`retry_budget_exhausted` and `deferred_retry_delay` of
-- crates/sentio-smtp-client/src/delivery.rs).
use sentio.Common.{
  subst, ℕ, ◌-◌, ◌≤◌, Bool, true, false, List, [], ◌∷◌, Option, none, some, ◌≡◌, ◌↔◌, ◌⊎◌, inl, inr,
  arith, Bool-cases,
}
use sentio.Common.Text.{Text}
use sentio.Queue.Retry.{DeliveryConfig}
use sentio.Client.Delivery.Denied.{Denied, may_retry-Denied}
use sentio.Client.Delivery.{
  DeliveryOutcome, delivered, deferred, bounced, suppressed, delay_for, longer, longest_delay,
  deferred_retry_delay, may_retry, budget_loop, retry_budget_exhausted,
}

sub_self : (n : ℕ) → 0 ≡ n - n
sub_self n = omega arith

module _ (draw : ℕ → ℕ) (config : DeliveryConfig) (retry_count : ℕ) where
  abbrev pub AnyDeferred : List (Text × DeliveryOutcome) → Type 0
  AnyDeferred [] = ⊥
  AnyDeferred ((recipient, deferred response mta bounce_class n at) ∷ outcomes) = Unit
  AnyDeferred ((recipient, delivered response mta) ∷ outcomes) = AnyDeferred outcomes
  AnyDeferred ((recipient, bounced response mta bounce_class) ∷ outcomes) = AnyDeferred outcomes
  AnyDeferred ((recipient, suppressed reason) ∷ outcomes) = AnyDeferred outcomes

  -- No recipient that is deferred may be tried again.
  abbrev pub AllDenied : (elapsed_ms : ℕ) → List (Text × DeliveryOutcome) → Type 0
  AllDenied elapsed_ms [] = Unit
  AllDenied elapsed_ms ((recipient, deferred response mta bounce_class n at) ∷ outcomes) =
      Denied config retry_count elapsed_ms recipient × AllDenied elapsed_ms outcomes
  AllDenied elapsed_ms ((recipient, delivered response mta) ∷ outcomes) =
      AllDenied elapsed_ms outcomes
  AllDenied elapsed_ms ((recipient, bounced response mta bounce_class) ∷ outcomes) =
      AllDenied elapsed_ms outcomes
  AllDenied elapsed_ms ((recipient, suppressed reason) ∷ outcomes) = AllDenied elapsed_ms outcomes

  -- How long a message has been queued; one with no time has just come.
  abbrev pub age_ms : Option ℕ → (now_ms : ℕ) → ℕ
  age_ms none now_ms = 0
  age_ms (some at) now_ms = now_ms - at

  budget_loop_iff :
      (any : Bool) (outcomes : List (Text × DeliveryOutcome)) (elapsed_ms : ℕ)
      → (budget_loop draw config any outcomes retry_count elapsed_ms ≡ true)
        ↔ (((any ≡ true) ⊎ AnyDeferred outcomes) × AllDenied elapsed_ms outcomes)
  unfolding budget_loop
  budget_loop_iff any [] elapsed_ms = ground arith
  budget_loop_iff any ((recipient, deferred response mta bounce_class n at) ∷ outcomes) elapsed_ms =
      elim (Bool-cases (may_retry draw config recipient retry_count elapsed_ms)) [
        | inl m ↦ ground (arith, m, may_retry-Denied draw config retry_count elapsed_ms recipient)
        | inr m ↦ ground (
          arith,
          m,
          may_retry-Denied draw config retry_count elapsed_ms recipient,
          budget_loop_iff true outcomes elapsed_ms,
        )
      ]
  budget_loop_iff any ((recipient, delivered response mta) ∷ outcomes) elapsed_ms =
      budget_loop_iff any outcomes elapsed_ms
  budget_loop_iff any ((recipient, bounced response mta bounce_class) ∷ outcomes) elapsed_ms =
      budget_loop_iff any outcomes elapsed_ms
  budget_loop_iff any ((recipient, suppressed reason) ∷ outcomes) elapsed_ms =
      budget_loop_iff any outcomes elapsed_ms

  -- The budget of a message is used up just when a recipient is deferred and each of those that are has used
  -- up the retries that the configuration gives to its domain, or the message has used up its lifetime.
  pub retry_budget_exhausted_iff :
      (now_ms : ℕ) (outcomes : List (Text × DeliveryOutcome)) (first_queued_at : Option ℕ)
      → (retry_budget_exhausted draw config now_ms outcomes retry_count first_queued_at ≡ true)
        ↔ (AnyDeferred outcomes × AllDenied (age_ms first_queued_at now_ms) outcomes)
  unfolding retry_budget_exhausted
  retry_budget_exhausted_iff now_ms outcomes (some at) =
      ground (arith, budget_loop_iff false outcomes (now_ms - at))
  retry_budget_exhausted_iff now_ms outcomes none =
      subst
        (λ age.
          (budget_loop draw config false outcomes retry_count age ≡ true)
          ↔ (AnyDeferred outcomes × AllDenied 0 outcomes))
        (sub_self now_ms) (ground (arith, budget_loop_iff false outcomes 0))

  -- A delay that is not before any of the recipients that are deferred.
  abbrev pub Waits : (delay : ℕ) → List (Text × DeliveryOutcome) → Type 0
  Waits delay [] = Unit
  Waits delay ((recipient, deferred response mta bounce_class n at) ∷ outcomes) =
      (delay_for draw config recipient retry_count bounce_class ≤ delay) × Waits delay outcomes
  Waits delay ((recipient, delivered response mta) ∷ outcomes) = Waits delay outcomes
  Waits delay ((recipient, bounced response mta bounce_class) ∷ outcomes) = Waits delay outcomes
  Waits delay ((recipient, suppressed reason) ∷ outcomes) = Waits delay outcomes

  -- What the loop has so far is not after the result.
  abbrev AtMost : Option ℕ → ℕ → Type 0
  AtMost none delay = Unit
  AtMost (some current) delay = current ≤ delay

  longer_least :
      (longest : Option ℕ) (delay bound : ℕ)
      → longer draw config longest delay ≤ bound
      → AtMost longest bound × (delay ≤ bound)
  longer_least none delay bound h = (tt, h)
  longer_least (some current) delay bound h = ground (arith, h)

  longest_delay-Waits :
      (longest : Option ℕ) (outcomes : List (Text × DeliveryOutcome)) (delay : ℕ)
      → longest_delay draw config longest outcomes retry_count ≡ some delay
      → AtMost longest delay × Waits delay outcomes
  unfolding longest_delay
  longest_delay-Waits none [] delay e = (tt, tt)
  longest_delay-Waits (some current) [] delay e = ground (arith, e)
  longest_delay-Waits longest ((recipient, deferred response mta bounce_class n at) ∷ outcomes)
        delay e =
      let own = delay_for draw config recipient retry_count bounce_class in
      let rest = longest_delay-Waits (some (longer draw config longest own)) outcomes delay e in
      let least = longer_least longest own delay rest.0 in (least.0, (least.1, rest.1))
  longest_delay-Waits longest ((recipient, delivered response mta) ∷ outcomes) delay e =
      longest_delay-Waits longest outcomes delay e
  longest_delay-Waits longest ((recipient, bounced response mta bounce_class) ∷ outcomes) delay e =
      longest_delay-Waits longest outcomes delay e
  longest_delay-Waits longest ((recipient, suppressed reason) ∷ outcomes) delay e =
      longest_delay-Waits longest outcomes delay e

  -- No recipient that is deferred is tried before the delay of its own policy and class.
  pub deferred_retry_delay-Waits :
      (outcomes : List (Text × DeliveryOutcome)) (delay : ℕ)
      → deferred_retry_delay draw config outcomes retry_count ≡ some delay
      → Waits delay outcomes
  unfolding deferred_retry_delay
  deferred_retry_delay-Waits outcomes delay e = (longest_delay-Waits none outcomes delay e).1
