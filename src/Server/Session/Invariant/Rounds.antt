-- ===== src/Server/Session/Invariant/Rounds.antt =====
-- The command loop of session.rs keeps the invariant of a session.
use sentio.Common.{ℕ, Bool, List, Option, none, some, ◌≡◌, arith, Result, ok, err}
use sentio.Server.Response.{SmtpResponse}
use sentio.Server.Commands.Types.{
  SmtpCommand, ehlo, helo, mail_from, rcpt_to, data_cmd, quit, rset, auth, bdat, xclient, IpAddr,
}
use sentio.Server.Commands.Line.{parse}
use sentio.Server.Session.Types.{
  CommandResult, response, Session, SessionDeps, Connection, SessionConfig, ListenerMode,
  new_session,
}
use sentio.Server.Session.Loop.{Round, handle_command, handle_line, command_loop}
use sentio.Server.Session.Rules.{IsKept, session_of, command_loop-Holds}
use sentio.Server.Session.Invariant.{IsValid}
use sentio.Server.Session.Invariant.Envelope.{
  handle_ehlo-IsValid, handle_helo-IsValid, handle_mail_from-IsValid, handle_rcpt_to-IsValid,
  handle_quit-IsValid, handle_rset-IsValid, handle_xclient-IsValid,
}
use sentio.Server.Session.Invariant.Messages.{
  handle_data-IsValid, handle_bdat-IsValid, handle_auth_begin-IsValid, handle_auth_data-IsValid,
}

module _ {A W : Type 0} (d : SessionDeps A W) where
  pub handle_command-IsValid :
      (s : Session A) (cmd : SmtpCommand) (w : W)
      → IsValid s
      → s.auth_state ≡ none
      → IsValid (handle_command d s cmd w).1
  unfolding handle_command
  handle_command-IsValid s (ehlo domain) w v n = handle_ehlo-IsValid s domain v
  handle_command-IsValid s (helo domain) w v n = handle_helo-IsValid s domain v
  handle_command-IsValid s (mail_from params) w v n = handle_mail_from-IsValid d s params w v
  handle_command-IsValid s (rcpt_to params) w v n = handle_rcpt_to-IsValid s params v
  handle_command-IsValid s data_cmd w v n = handle_data-IsValid d s w v
  handle_command-IsValid s (bdat size last) w v n = handle_bdat-IsValid d s size last w v
  handle_command-IsValid s quit w v n = handle_quit-IsValid s v
  handle_command-IsValid s rset w v n = handle_rset-IsValid s v
  handle_command-IsValid s (auth args) w v n = handle_auth_begin-IsValid d s args w v n
  handle_command-IsValid s (xclient params) w v n = handle_xclient-IsValid s params v
  handle_command-IsValid s _ w v n = v

  pub handle_line-IsValid :
      (s : Session A) (st : Option A) (line : List ℕ) (w : W)
      → IsValid s
      → s.auth_state ≡ st
      → IsValid (handle_line d s st line w).1
  unfolding handle_line
  handle_line-IsValid s (some a) line w v e = handle_auth_data-IsValid d s a line w v e
  handle_line-IsValid s none line w v e = parsed (parse d.parse_ip line)
    where
      parsed :
          (p : Result SmtpResponse SmtpCommand)
          → IsValid
              (elim p as (λ _. CommandResult × Session A × W) [
                | ok cmd ↦ handle_command d s cmd w
                | err resp ↦ (response resp, s, w)
              ]).1
      parsed (ok cmd) = handle_command-IsValid s cmd w v e
      parsed (err resp) = v

  pub line-IsKept : IsKept d (λ s w. IsValid s)
  line-IsKept = record {
    moved = λ s w count buf ev signals writes written v. record {
      envelope = v.envelope;
      recipients = v.recipients;
      chunks = v.chunks;
      messages = v.messages;
      attempts = v.attempts;
      exchange = v.exchange;
      identity = v.identity;
      exchange_secure = v.exchange_secure;
    };
    line = λ s st bytes w v e. handle_line-IsValid s st bytes w v e;
  }

  -- A session that is valid is valid whenever the loop ends, whatever the client and the callbacks
  -- do.
  pub command_loop-IsValid :
      (fuel : ℕ) (s : Session A) (w : W) (r : Round A W)
      → IsValid s
      → command_loop d fuel s w ≡ some r
      → IsValid (session_of r)
  command_loop-IsValid = command_loop-Holds d (λ s w. IsValid s) line-IsKept

-- A new session is valid.
pub new_session-IsValid :
    {A : Type 0} (stream : Connection) (config : SessionConfig) (peer : IpAddr)
    (mode : ListenerMode) (tls_active : Bool)
    → IsValid (new_session {A = A} stream config peer mode tls_active)
unfolding new_session
new_session-IsValid stream config peer mode tls_active = ground arith
