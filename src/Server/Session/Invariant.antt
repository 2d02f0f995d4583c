-- ===== src/Server/Session/Invariant.antt =====
-- The invariant of a session.
pub mod Envelope
pub mod Messages
pub mod Rounds
use sentio.Common.{
  ℕ, suc, ◌+◌, ◌≤◌, ◌<◌, Bool, true, false, ◌||◌, List, [], ◌∷◌, ◌++◌, Option, none, some, ◌≡◌, ◌≢◌,
  refl, arith, length, length-append, is_some,
}
use sentio.Server.Commands.Types.{MailFromParams, RcptToParams}
use sentio.Server.Session.Types.{
  SessionState, connected, greeted, mail_from, rcpt_to, data_state, bdat, done, ListenerMode,
  Session, is_smtps,
}

-- What each state says of the envelope, and of the messages sent so far.
abbrev pub Envelope :
    SessionState → Option MailFromParams → List RcptToParams → List ℕ → (count max : ℕ) → Type 0
Envelope connected mf rcpts chunks count max = (mf ≡ none) × (rcpts ≡ []) × (chunks ≡ [])
Envelope greeted mf rcpts chunks count max = (mf ≡ none) × (rcpts ≡ []) × (chunks ≡ [])
Envelope mail_from mf rcpts chunks count max =
    (is_some mf ≡ true) × (rcpts ≡ []) × (chunks ≡ []) × (count < max)
Envelope rcpt_to mf rcpts chunks count max =
    (is_some mf ≡ true) × (rcpts ≢ []) × (chunks ≡ []) × (count < max)
Envelope data_state mf rcpts chunks count max =
    (is_some mf ≡ true) × (rcpts ≢ []) × (chunks ≡ []) × (count < max)
Envelope bdat mf rcpts chunks count max = (is_some mf ≡ true) × (rcpts ≢ []) × (count < max)
Envelope done mf rcpts chunks count max = Unit

-- An exchange under way has an attempt left.
abbrev pub HasAttempt {ℓ} : {A : Type ℓ} → Option A → (attempts max : ℕ) → Type 0
HasAttempt none attempts max = Unit
HasAttempt (some a) attempts max = attempts < max

-- What is there was sent under TLS.
abbrev pub IsSecure {ℓ} : {A : Type ℓ} → Option A → (tls_active : Bool) → ListenerMode → Type 0
IsSecure none tls_active mode = Unit
IsSecure (some a) tls_active mode = (tls_active || is_smtps mode) ≡ true

pub record IsValid {A : Type 0} (s : Session A) : Type 0 where
  pub envelope :
      Envelope s.state s.mail_from s.rcpt_to s.bdat_data s.message_count s.config.max_messages
  pub recipients : length s.rcpt_to ≤ s.config.max_recipients
  pub chunks : length s.bdat_data ≤ s.config.max_message_size
  pub messages : s.message_count ≤ s.config.max_messages
  pub attempts : s.auth_attempts ≤ s.config.max_auth_attempts
  pub exchange : HasAttempt s.auth_state s.auth_attempts s.config.max_auth_attempts
  pub identity : IsSecure s.authenticated s.tls_active s.listener_mode
  pub exchange_secure : IsSecure s.auth_state s.tls_active s.listener_mode
