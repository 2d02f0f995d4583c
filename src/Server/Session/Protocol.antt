-- ===== src/Server/Session/Protocol.antt =====
-- The states of an SMTP session as a transition system, and session.rs as an instance of it.
pub mod States
pub mod Refinement
pub mod Traces
mod Tests
use sentio.Common.{ℕ, ◌^◌, ◌≤◌, Bool, true, false, List, [], ◌∷◌, ◌≡◌, ◌≢◌, ◌⊎◌}
use sentio.Common.Text.{Text}
use sentio.Server.Response.{SmtpResponse}
use sentio.Server.Commands.Types.{
  SmtpCommand, ehlo, helo, mail_from as mail, rcpt_to as rcpt, data_cmd, quit, rset, noop, vrfy,
  help, start_tls, auth, bdat as chunk, xclient, MailFromParams, RcptToParams, XClientParams,
}
use sentio.Server.Session.Types.{
  SessionState, connected, greeted, mail_from, rcpt_to, data_state, bdat, done, CommandResult,
  response, upgrade, panicked,
}

-- The states in which a chunk may come, and those in which an exchange of AUTH may begin.
pub data TakesChunk : SessionState → Type 0 where
  first_chunk : TakesChunk rcpt_to
  later_chunk : TakesChunk bdat

abbrev pub IsOutside : SessionState → Type 0
IsOutside s = (s ≢ mail_from) × (s ≢ rcpt_to)

-- What a command may do to the state, with the reply to it. A command that is refused leaves the state as it
-- is; what becomes of a message is said by the reply of the processor, which is not fixed here.
pub data Transition : SessionState → SmtpCommand → CommandResult → SessionState → Type 0 where
  refused :
      (s : SessionState) (c : SmtpCommand) (r : SmtpResponse)
      → 400 ≤ r.code
      → Transition s c (response r) s
  extended_hello :
      (s : SessionState) (domain : Text) (r : SmtpResponse)
      → r.code ≡ 250
      → Transition s (ehlo domain) (response r) greeted
  hello :
      (s : SessionState) (domain : Text) (r : SmtpResponse)
      → r.code ≡ 250
      → Transition s (helo domain) (response r) greeted
  begins :
      (params : MailFromParams) (r : SmtpResponse)
      → r.code ≡ 250
      → Transition greeted (mail params) (response r) mail_from
  exhausted :
      (params : MailFromParams) (r : SmtpResponse)
      → r.code ≡ 421
      → Transition greeted (mail params) (response r) done
  first_recipient :
      (params : RcptToParams) (r : SmtpResponse)
      → r.code ≡ 250
      → Transition mail_from (rcpt params) (response r) rcpt_to
  next_recipient :
      (params : RcptToParams) (r : SmtpResponse)
      → r.code ≡ 250
      → Transition rcpt_to (rcpt params) (response r) rcpt_to
  message_done : (r : SmtpResponse) → Transition rcpt_to data_cmd (response r) greeted
  message_lost : (r : SmtpResponse) → r.code ≡ 421 → Transition rcpt_to data_cmd (response r) done
  not_prompted :
      (r : SmtpResponse) → r.code ≡ 421 → Transition rcpt_to data_cmd (response r) data_state
  next_chunk :
      (s : SessionState) (size : ℕ) (r : SmtpResponse)
      → TakesChunk s
      → r.code ≡ 250
      → Transition s (chunk size false) (response r) bdat
  last_chunk :
      (s : SessionState) (size : ℕ) (r : SmtpResponse)
      → TakesChunk s
      → Transition s (chunk size true) (response r) greeted
  large_chunk :
      (s : SessionState) (size : ℕ) (last : Bool) (r : SmtpResponse)
      → TakesChunk s
      → r.code ≡ 552
      → Transition s (chunk size last) (response r) greeted
  chunk_lost :
      (s : SessionState) (size : ℕ) (last : Bool) (r : SmtpResponse)
      → TakesChunk s
      → r.code ≡ 421
      → Transition s (chunk size last) (response r) done
  huge_chunk :
      (s : SessionState) (size : ℕ) (last : Bool)
      → TakesChunk s
      → 2 ^ 63 ≤ size
      → Transition s (chunk size last) panicked s
  leaves :
      (s : SessionState) (r : SmtpResponse) → r.code ≡ 221 → Transition s quit (response r) done
  resets :
      (s : SessionState) (r : SmtpResponse)
      → s ≢ connected
      → r.code ≡ 250
      → Transition s rset (response r) greeted
  nothing_to_reset :
      (r : SmtpResponse) → r.code ≡ 250 → Transition connected rset (response r) connected
  restarts :
      (params : XClientParams) (r : SmtpResponse)
      → r.code ≡ 220
      → Transition greeted (xclient params) (response r) connected
  exchanges :
      (s : SessionState) (args : Text) (r : SmtpResponse)
      → IsOutside s
      → Transition s (auth args) (response r) s
  locked_out :
      (s : SessionState) (args : Text) (r : SmtpResponse)
      → IsOutside s
      → r.code ≡ 421
      → Transition s (auth args) (response r) done
  upgrades : Transition greeted start_tls upgrade greeted
  idles : (s : SessionState) (r : SmtpResponse) → r.code ≡ 250 → Transition s noop (response r) s
  verifies :
      (s : SessionState) (text : Text) (r : SmtpResponse)
      → r.code ≡ 252
      → Transition s (vrfy text) (response r) s
  helps : (s : SessionState) (r : SmtpResponse) → r.code ≡ 214 → Transition s help (response r) s

-- The commands of a session, the latest one first, from one state to another.
pub data Trace (s : SessionState) : List SmtpCommand → SessionState → Type 0 where
  start : Trace s [] s
  step :
      (t u : SessionState) (c : SmtpCommand) (r : CommandResult) (cs : List SmtpCommand)
      → Trace s cs t
      → Transition t c r u
      → Trace s (c ∷ cs) u
