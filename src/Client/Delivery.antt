-- ===== src/Client/Delivery.antt =====
-- What the delivery of a message makes of replies and outcomes:
-- crates/sentio-smtp-client/src/delivery.rs.
pub mod Groups
pub mod Denied
pub mod Budget
pub mod Sending
use sentio.Common.{
  ℕ, ◌-◌, Bool, true, false, not, ◌||◌, ◌&&◌, List, [], ◌∷◌, ◌++◌, Option, none, some, is_some,
  length, ltb, if◌then◌else◌, Result, ok, err,
}
use sentio.Common.Text.{Text, codes, same, is_empty, decimal, rsplit_once}
use sentio.Queue.Retry.{
  BounceClass, DeliveryConfig, from_delivery_config, from_delivery_config_for_domain,
  compute_delay_ms, compute_delay_ms_with_class, should_retry,
}
use sentio.Client.Bounces.{classify_bounce}
use sentio.Client.Wire.{SmtpConnection, ServerCapabilities, Fault, Io, ◌>>=◌, return}
use sentio.Client.Reply.{SmtpResponse, is_success, is_transient, full_text}
use sentio.Client.Dialogue.{
  mail_from, mail_from_with_dsn, rcpt_to, rcpt_to_with_dsn, send_data, rset, quit,
}

pub data DeliveryOutcome : Type 0 where
  delivered : (response remote_mta : Text) → DeliveryOutcome
  deferred :
      (response remote_mta : Text) (bounce_class : BounceClass) (retry_count next_retry_at : ℕ)
      → DeliveryOutcome
  bounced : (response remote_mta : Text) (bounce_class : BounceClass) → DeliveryOutcome
  suppressed : (reason : Text) → DeliveryOutcome

abbrev pub response_text : SmtpResponse → Text
response_text resp = decimal resp.code ++ (b' ' ∷ full_text resp)

abbrev pub class_of : SmtpResponse → BounceClass
class_of resp = classify_bounce resp.code resp.enhanced (some (response_text resp))

-- `now` is `Utc::now()`.
unfoldable pub classify_response : (now : ℕ) → SmtpResponse → (remote_mta : Text) → DeliveryOutcome
classify_response now resp remote_mta =
    if is_success resp
    then delivered (response_text resp) remote_mta
    else if is_transient resp
    then deferred (response_text resp) remote_mta (class_of resp) 0 now
    else bounced (response_text resp) remote_mta (class_of resp)

-- The key of the group of a recipient.
unfoldable pub domain_of : (to_lowercase : Text → Text) → (rcpt : Text) → Text
domain_of to_lowercase rcpt = elim (rsplit_once b'@' rcpt) [
  | some (user, domain) ↦ to_lowercase domain
  | none ↦ codes "unknown"
]

-- `map.entry(domain).or_default().push(rcpt)`.
unfoldable pub push_entry : (domain rcpt : Text) → List (Text × List Text) → List (Text × List Text)
push_entry domain rcpt [] = (domain, rcpt ∷ []) ∷ []
push_entry domain rcpt ((key, rcpts) ∷ groups) =
    let rest = push_entry domain rcpt groups in
    if same key domain then (key, rcpts ++ rcpt ∷ []) ∷ groups else (key, rcpts) ∷ rest

-- The map has no order; here its groups come by their first recipients.
unfoldable pub group_onto :
    (to_lowercase : Text → Text) → List (Text × List Text) → List Text → List (Text × List Text)
group_onto to_lowercase groups [] = groups
group_onto to_lowercase groups (rcpt ∷ rcpts) =
    group_onto to_lowercase (push_entry (domain_of to_lowercase rcpt) rcpt groups) rcpts

unfoldable pub group_by_domain : (to_lowercase : Text → Text) → List Text → List (Text × List Text)
group_by_domain to_lowercase recipients = group_onto to_lowercase [] recipients

-- `rsplit('@').next()`, by which the policy of a recipient is found.
unfoldable pub policy_domain : (recipient : Text) → Text
policy_domain recipient = elim (rsplit_once b'@' recipient) [
  | some (user, domain) ↦ domain
  | none ↦ recipient
]

-- `encode_address` of the codec, if there is one.
unfoldable pub verp_rewrite :
    {K : Type 0}
    → (codec : Option (K → (domain : Text) → Text)) → (hostname : Text) → (message_id : K)
    → (envelope_from : Text) → (tenant_verp_enabled : Bool) → Text
verp_rewrite none hostname message_id envelope_from enabled = envelope_from
verp_rewrite (some encode_address) hostname message_id envelope_from enabled =
    if is_empty envelope_from
    then []
    else if enabled
    then elim (rsplit_once b'@' envelope_from) [
      | some (user, domain) ↦ encode_address message_id domain
      | none ↦ encode_address message_id hostname
    ]
    else envelope_from

module _ (draw : ℕ → ℕ) (config : DeliveryConfig) where
  abbrev pub delay_for : (recipient : Text) → (retry_count : ℕ) → BounceClass → ℕ
  delay_for recipient retry_count bounce_class =
      compute_delay_ms_with_class
        (from_delivery_config_for_domain draw config (policy_domain recipient)) retry_count
        (some bounce_class)

  abbrev pub longer : Option ℕ → ℕ → ℕ
  longer none delay = delay
  longer (some current) delay = if ltb current delay then delay else current

  unfoldable pub longest_delay :
      Option ℕ → List (Text × DeliveryOutcome) → (retry_count : ℕ) → Option ℕ
  longest_delay longest [] retry_count = longest
  longest_delay longest ((recipient, deferred response mta bounce_class n at) ∷ outcomes)
        retry_count =
      longest_delay (some (longer longest (delay_for recipient retry_count bounce_class))) outcomes
        retry_count
  longest_delay longest ((recipient, delivered response mta) ∷ outcomes) retry_count =
      longest_delay longest outcomes retry_count
  longest_delay longest ((recipient, bounced response mta bounce_class) ∷ outcomes) retry_count =
      longest_delay longest outcomes retry_count
  longest_delay longest ((recipient, suppressed reason) ∷ outcomes) retry_count =
      longest_delay longest outcomes retry_count

  unfoldable pub deferred_retry_delay : List (Text × DeliveryOutcome) → (retry_count : ℕ) → Option ℕ
  deferred_retry_delay outcomes retry_count = longest_delay none outcomes retry_count

  abbrev pub is_deferred : DeliveryOutcome → Bool
  is_deferred (deferred response mta bounce_class n at) = true
  is_deferred (delivered response mta) = false
  is_deferred (bounced response mta bounce_class) = false
  is_deferred (suppressed reason) = false

  abbrev pub may_retry : (recipient : Text) → (retry_count elapsed_ms : ℕ) → Bool
  may_retry recipient retry_count elapsed_ms =
      should_retry (from_delivery_config_for_domain draw config (policy_domain recipient))
        retry_count (some elapsed_ms)

  -- The loop, with `any_deferred`.
  unfoldable pub budget_loop :
      (any_deferred : Bool) → List (Text × DeliveryOutcome) → (retry_count elapsed_ms : ℕ) → Bool
  budget_loop any_deferred [] retry_count elapsed_ms = any_deferred
  budget_loop any_deferred ((recipient, outcome) ∷ outcomes) retry_count elapsed_ms =
      let seen = budget_loop true outcomes retry_count elapsed_ms in
      let skipped = budget_loop any_deferred outcomes retry_count elapsed_ms in
      if is_deferred outcome
      then if may_retry recipient retry_count elapsed_ms then false else seen
      else skipped

  abbrev pub queued_at : Option ℕ → (now_ms : ℕ) → ℕ
  queued_at none now_ms = now_ms
  queued_at (some at) now_ms = at

  unfoldable pub retry_budget_exhausted :
      (now_ms : ℕ)
      → List (Text × DeliveryOutcome)
      → (retry_count : ℕ) → (first_queued_at : Option ℕ) → Bool
  retry_budget_exhausted now_ms outcomes retry_count first_queued_at =
      budget_loop false outcomes retry_count (now_ms - queued_at first_queued_at now_ms)
