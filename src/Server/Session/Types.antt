-- ===== src/Server/Session/Types.antt =====
-- The state of a session and what it depends on: crates/sentio-smtp-server/src/session.rs, with
-- the types it takes from pipeline.rs and auth.rs.
--
-- `A` is the state of a SASL exchange, and `W` all that the injected callbacks read and change.
-- The session's input is in `pending` (see Reader); `writes` are the outcomes of its coming writes,
-- and a list that has run out stands for writes that succeed; `written` are the replies sent.
use sentio.Common.{ℕ, Bool, true, false, List, [], ◌∷◌, ◌++◌, Option, none, Result}
use sentio.Common.Text.{Text}
use sentio.Server.Extensions.{Extensions}
use sentio.Server.Reader.{ReadEvent}
use sentio.Server.Response.{SmtpResponse}
use sentio.Server.Commands.Types.{DsnNotify, DsnRet, IpAddr, MailFromParams, RcptToParams}

pub data SessionState : Type 0 where
  connected greeted mail_from rcpt_to data_state bdat done : SessionState

pub data SessionOutcome : Type 0 where
  closed start_tls : SessionOutcome

-- `CommandResult`, and a panic, which ends the session's task with no reply.
pub data CommandResult : Type 0 where
  response : SmtpResponse → CommandResult
  upgrade panicked : CommandResult

pub data ListenerMode : Type 0 where
  smtp smtps submission : ListenerMode

-- `uuid::Uuid` of a tenant.
abbrev pub TenantId : Type 0
TenantId = ℕ

pub record AuthResult : Type 0 where
  pub username : Text
  pub tenant_id : TenantId

pub data AuthProgress (A : Type 0) : Type 0 where
  complete : AuthResult → AuthProgress A
  challenge : A → SmtpResponse → AuthProgress A

pub record InboundMessage : Type 0 where
  pub raw_data : List ℕ
  pub envelope_from : Text
  pub envelope_to : List Text
  pub peer_addr : IpAddr
  pub client_domain : Option Text
  pub server_hostname : Text
  pub authenticated_user : Option Text
  pub tls_active : Bool
  pub max_received_headers : ℕ
  pub dsn_ret : Option DsnRet
  pub dsn_envid : Option Text
  pub dsn_notify : List (Text × DsnNotify)
  pub dsn_orcpt : List (Text × Text)

pub record ProcessingOutcome : Type 0 where
  pub queue_id : Text
  pub message_id : ℕ

pub data ProcessingError : Type 0 where
  reject temp_fail : (code : ℕ) (enhanced message : Text) → ProcessingError

-- The callbacks, and `begin_auth` and `continue_auth` of auth.rs with the credential lookup they
-- are given. `now` is the system time in nanoseconds.
pub record SessionDeps (A W : Type 0) : Type 0 where
  pub begin_auth : Text → Option (List ℕ) → W → Result SmtpResponse (AuthProgress A) × W
  pub continue_auth : A → List ℕ → Option (List ℕ) → W → Result SmtpResponse (AuthProgress A) × W
  pub on_auth_failure : IpAddr → W → W
  pub on_auth_success : IpAddr → W → W
  pub message_processor : Option (InboundMessage → W → Result ProcessingError ProcessingOutcome × W)
  pub domain_check : Option (TenantId → Text → W → Bool × W)
  pub parse_ip : Text → Option IpAddr
  pub now : W → ℕ

-- Without the timeouts, whose expiry is an outcome of a read.
pub record SessionConfig : Type 0 where
  pub hostname : Text
  pub extensions : Extensions
  pub max_message_size : ℕ
  pub max_recipients : ℕ
  pub max_messages : ℕ
  pub max_line_length : ℕ
  pub max_received_headers : ℕ
  pub max_auth_attempts : ℕ
  pub max_commands_per_session : ℕ
  pub strict_ehlo_validation : Bool
  pub tls_available : Bool
  pub auth_mechanisms : Text
  pub tls_server_cert_hash : Option (List ℕ)
  pub xclient_enabled : Bool
  pub xclient_allowed_ips : List IpAddr

pub record Session (A : Type 0) : Type 0 where
  pub config : SessionConfig
  pub state : SessionState
  pub mail_from : Option MailFromParams
  pub rcpt_to : List RcptToParams
  pub message_count : ℕ
  pub command_count : ℕ
  pub read_buf : List ℕ
  pub bdat_data : List ℕ
  pub tls_active : Bool
  pub listener_mode : ListenerMode
  pub authenticated : Option AuthResult
  pub auth_state : Option A
  pub auth_attempts : ℕ
  pub peer_addr : IpAddr
  pub client_domain : Option Text
  pub shutdown : List Bool
  pub pending : List ReadEvent
  pub writes : List Bool
  pub written : List SmtpResponse

-- The two ends of a session's connection.
pub record Connection : Type 0 where
  pub shutdown : List Bool
  pub pending : List ReadEvent
  pub writes : List Bool

-- The outcome of one write, and the writes to come.
abbrev next_write : List Bool → Bool × List Bool
next_write [] = (true, [])
next_write (sent ∷ writes) = (sent, writes)

module _ {A : Type 0} where
  unfoldable pub new_session :
      Connection → SessionConfig → IpAddr → ListenerMode → (tls_active : Bool) → Session A
  new_session stream config peer_addr mode tls_active = record {
    config = config;
    state = connected;
    mail_from = none;
    rcpt_to = [];
    message_count = 0;
    command_count = 0;
    read_buf = [];
    bdat_data = [];
    tls_active = tls_active;
    listener_mode = mode;
    authenticated = none;
    auth_state = none;
    auth_attempts = 0;
    peer_addr = peer_addr;
    client_domain = none;
    shutdown = stream.shutdown;
    pending = stream.pending;
    writes = stream.writes;
    written = [];
  }

  -- The session after the upgrade starts over, with TLS and without the buffer.
  unfoldable pub new_after_starttls : Connection → SessionConfig → IpAddr → ListenerMode → Session A
  unfolding new_session
  new_after_starttls stream config peer_addr mode = new_session stream config peer_addr mode true

  unfoldable pub reset_envelope : Session A → Session A
  reset_envelope s = record s { mail_from = none; rcpt_to = []; bdat_data = [] }

  -- Whether the write succeeded, and the session after it.
  unfoldable pub write_response : Session A → SmtpResponse → Bool × Session A
  write_response s resp =
      let (sent, writes) = next_write s.writes in
      (sent, record s { writes = writes; written = s.written ++ resp ∷ [] })

abbrev pub is_greeted : SessionState → Bool
is_greeted greeted = true
is_greeted _ = false

abbrev pub is_connected : SessionState → Bool
is_connected connected = true
is_connected _ = false

abbrev pub is_done : SessionState → Bool
is_done done = true
is_done _ = false

abbrev pub is_rcpt_to : SessionState → Bool
is_rcpt_to rcpt_to = true
is_rcpt_to _ = false

-- The states in which RCPT is allowed, those in which BDAT is, and those in which AUTH is refused.
abbrev pub takes_rcpt : SessionState → Bool
takes_rcpt mail_from = true
takes_rcpt rcpt_to = true
takes_rcpt _ = false

abbrev pub takes_bdat : SessionState → Bool
takes_bdat rcpt_to = true
takes_bdat bdat = true
takes_bdat _ = false

abbrev pub refuses_auth : SessionState → Bool
refuses_auth mail_from = true
refuses_auth rcpt_to = true
refuses_auth _ = false

abbrev pub is_smtps : ListenerMode → Bool
is_smtps smtps = true
is_smtps _ = false

abbrev pub is_smtp : ListenerMode → Bool
is_smtp smtp = true
is_smtp _ = false
