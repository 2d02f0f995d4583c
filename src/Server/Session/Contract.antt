-- ===== src/Server/Session/Contract.antt =====
-- What session.rs promises to the callbacks that it is given, the message processor above all.
pub mod Messages
pub mod Handlers
pub mod Run
use sentio.Common.{
  ℕ, zero, suc, ◌+◌, ◌≤◌, ◌<◌, Bool, true, false, ◌||◌, List, [], ◌∷◌, ◌++◌, Option, none, some,
  ◌≡◌, ◌≢◌, refl, sym, subst, arith, length, length-append, is_some, Result, ok, err, inl, inr,
  Option-cases, map,
}
use sentio.Common.Text.{Text}
use sentio.Server.Response.{SmtpResponse, start_data}
use sentio.Server.Commands.Types.{
  SmtpCommand, ehlo, helo, mail_from, rcpt_to, data_cmd, quit, rset, noop, vrfy, help, start_tls,
  auth, bdat, xclient, not_implemented, unknown, MailFromParams, RcptToParams, XClientParams,
  IpAddr,
}
use sentio.Server.Commands.Line.{parse}
use sentio.Server.Reader
use sentio.Server.Reader.{ReadError, io, line_too_long}
use sentio.Server.Reader.Limits.{length-read_data}
use sentio.Server.Reader.Exact.{length-read_exact_bytes}
use sentio.Server.Session.Types.{
  CommandResult, response, Session, SessionConfig, SessionDeps, AuthProgress, AuthResult, complete,
  challenge, InboundMessage, ListenerMode, data_state, write_response, takes_bdat,
}
use sentio.Server.Session.Envelope.{
  run_domain_check, sender_allowed, handle_ehlo, handle_helo, handle_mail_from, handle_rcpt_to,
  handle_quit, handle_rset, handle_xclient,
}
use sentio.Server.Session.Messages.{
  paths, inbound_message, run_processor, with_input, deliver, data_reading, chunk_reading,
  after_data, handle_data, refuse_chunk, after_chunk, handle_bdat,
}
use sentio.Server.Session.Login.{
  cb_data, handle_auth_failure, after_auth, handle_auth_begin, handle_auth_data,
}
use sentio.Server.Session.Loop.{Round, handle_command, handle_line, command_loop}
use sentio.Server.Session.Frame.{Frame, handle_line-Frame}
use sentio.Server.Session.Rules.{IsKept, session_of, world_of, command_loop-Holds}
use sentio.Server.Session.Invariant.{IsValid, IsSecure}
use sentio.Server.Session.Invariant.Rounds.{handle_line-IsValid}

-- A message within the limits of the configuration, whose user has logged in under TLS.
pub record IsDeliverable (config : SessionConfig) (mode : ListenerMode) (msg : InboundMessage)
    : Type 0 where
  pub recipients : msg.envelope_to ≢ []
  pub recipient_count : length msg.envelope_to ≤ config.max_recipients
  pub size : length msg.raw_data ≤ config.max_message_size
  pub secure : IsSecure msg.authenticated_user msg.tls_active mode
  pub server : msg.server_hostname ≡ config.hostname

-- Callbacks that keep `P`, a property of the world and the number of messages that were taken.
-- The processor has to keep it for deliverable messages only, and below the quota.
pub record IsContract {A W : Type 0} (d : SessionDeps A W) (P : ℕ → W → Type 0)
    (config : SessionConfig) (mode : ListenerMode) : Type 0 where
  pub begins :
      (n : ℕ) (args : Text) (cb : Option (List ℕ)) (w : W) → P n w → P n (d.begin_auth args cb w).1
  pub continues :
      (n : ℕ) (a : A) (line : List ℕ) (cb : Option (List ℕ)) (w : W)
      → P n w
      → P n (d.continue_auth a line cb w).1
  pub fails : (n : ℕ) (peer : IpAddr) (w : W) → P n w → P n (d.on_auth_failure peer w)
  pub succeeds : (n : ℕ) (peer : IpAddr) (w : W) → P n w → P n (d.on_auth_success peer w)
  pub checks :
      (n : ℕ) (user : Option AuthResult) (path : Text) (w : W)
      → P n w
      → P n (run_domain_check d d.domain_check user path w).1
  pub processes :
      (n : ℕ) (msg : InboundMessage) (w : W)
      → n < config.max_messages
      → IsDeliverable config mode msg
      → P n w
      → P (n + 1) (run_processor d d.message_processor msg w).1

length-paths : (rcpts : List RcptToParams) → length (paths rcpts) ≡ length rcpts
length-paths [] = refl
length-paths (r ∷ rcpts) = ground (arith, length-paths rcpts)

pub inbound_message-IsDeliverable :
    {A : Type 0} (s : Session A) (bytes : List ℕ)
    → s.rcpt_to ≢ []
    → length s.rcpt_to ≤ s.config.max_recipients
    → IsSecure s.authenticated s.tls_active s.listener_mode
    → length bytes ≤ s.config.max_message_size
    → IsDeliverable s.config s.listener_mode (inbound_message s bytes)
unfolding inbound_message
inbound_message-IsDeliverable s bytes r n a b = ground (arith, length-paths s.rcpt_to)
