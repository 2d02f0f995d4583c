-- ===== src/Server/Routing.antt =====
-- The routes of inbound messages and the delays of their webhooks:
-- crates/sentio-smtp-server/src/routing.rs.
pub mod First
mod Tests
use sentio.Common.{
  ℕ, ◌-◌, ◌^◌, ◌*◌, min, Bool, true, false, List, [], ◌∷◌, Option, none, some, if◌then◌else◌,
}
use sentio.Common.Text.{Text, same, rsplit_once}
use sentio.Queue.Retry.{saturating_mul}

pub data InboundRouteMatchType : Type 0 where
  exact regex domain catch_all : InboundRouteMatchType

-- The fields of an `InboundRouteRecord` that matching and delivery read.
pub record InboundRouteRecord : Type 0 where
  pub pattern : Text
  pub match_type : InboundRouteMatchType
  pub webhook_url : Text
  pub priority : ℕ

-- The part behind the last at sign, or nothing.
abbrev pub domain_part : Text → Text
domain_part recipient = elim (rsplit_once b'@' recipient) [ some (user, d) ↦ d | none ↦ [] ]

-- `new_regex` is `Regex::new`, with `is_match`; none is an error.
module _ (to_lowercase : Text → Text) (new_regex : Text → Option (Text → Bool)) where
  abbrev pub regex_matches : Option (Text → Bool) → (recipient_lower : Text) → Bool
  regex_matches none recipient_lower = false
  regex_matches (some is_match) recipient_lower = is_match recipient_lower

  unfoldable pub matched : (recipient_lower pattern : Text) → InboundRouteMatchType → Bool
  matched recipient_lower pattern exact = same (to_lowercase pattern) recipient_lower
  matched recipient_lower pattern domain = same (to_lowercase pattern) (domain_part recipient_lower)
  matched recipient_lower pattern regex = regex_matches (new_regex pattern) recipient_lower
  matched recipient_lower pattern catch_all = true

  unfoldable pub first_match :
      (recipient_lower : Text) → List InboundRouteRecord → Option InboundRouteRecord
  first_match recipient_lower [] = none
  first_match recipient_lower (route ∷ routes) =
      let rest = first_match recipient_lower routes in
      if matched recipient_lower route.pattern route.match_type then some route else rest

  unfoldable pub match_route :
      (recipient : Text) → List InboundRouteRecord → Option InboundRouteRecord
  match_route recipient routes = first_match (to_lowercase recipient) routes

-- `jittered` makes a delay from a delay by a random factor.
pub record InboundWebhookRetryPolicy : Type 0 where
  pub max_attempts : ℕ
  pub base_delay_ms : ℕ
  pub max_delay_ms : ℕ
  pub jittered : ℕ → ℕ

abbrev pub default_policy : (jittered : ℕ → ℕ) → InboundWebhookRetryPolicy
default_policy jittered = record {
  max_attempts = 10;
  base_delay_ms = 30_000;
  max_delay_ms = 6 * 60 * 60 * 1_000;
  jittered = jittered;
}

-- The delay before the jitter.
unfoldable pub capped : InboundWebhookRetryPolicy → (attempt_just_completed : ℕ) → ℕ
capped p attempt_just_completed =
    min (saturating_mul p.base_delay_ms (2 ^ min (attempt_just_completed - 1) 30)) p.max_delay_ms

unfoldable pub delay_after_attempt : InboundWebhookRetryPolicy → (attempt_just_completed : ℕ) → ℕ
delay_after_attempt p attempt_just_completed = p.jittered (capped p attempt_just_completed)
