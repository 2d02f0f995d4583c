-- ===== src/Server/Session/Tests.antt =====
-- A session of session.rs with a client that sends one message, and the instances of its theorems.
use sentio.Common.{
  ℕ, ◌+◌, ◌≤◌, ◌<◌, ◌↔◌, not, ◌&&◌, true, false, List, [], ◌∷◌, Option, none, some, ◌≡◌, refl,
  arith, length, length-append, All, All-append, is_some,
}
use sentio.Common.Text.{Text, codes}
use sentio.Server.Commands.Types.{MailFromParams, RcptToParams}
use sentio.Server.Session.Types.{write_response, reset_envelope}
use sentio.Server.Session.Loop.{
  command_loop, round, after_line, count_line, handle_line, handle_command,
}
use sentio.Server.Reader.{
  read_line, line_or, split_line, strip_cr, find_terminator, finish_data, data_or, read_data_from,
  read_data,
}
use sentio.Server.Commands.Line.{parse}
use sentio.Server.Validation.{has_non_ascii, dot_unstuff, dot_unstuff_from}
use sentio.Server.Session.Envelope.{
  greet, handle_ehlo, refuses_domain, handle_mail_from, sender_allowed, handle_rcpt_to, smtputf8_of,
  complete_path, handle_quit, offered, mechanisms,
}
use sentio.Server.Session.Messages.{
  handle_data, after_data, deliver, inbound_message, finish_message, reply_to, dsn_notify_of,
  dsn_orcpt_of, insert, run_processor,
}
use sentio.Common.Text.{contains, starts_with, is_empty}
use sentio.Server.Session.Types.{
  AuthResult, InboundMessage, smtp, Session, new_session, greeted, takes_rcpt,
}
use sentio.Server.Session.Envelope.{run_domain_check}
use sentio.Server.Session.Loop.{Round, died, run}
use sentio.Server.Session.Rules.{session_of, world_of}
use sentio.Server.Session.Invariant.{IsValid}
use sentio.Server.Session.Invariant.Rounds.{command_loop-IsValid, new_session-IsValid}
use sentio.Server.Commands.MailFrom.{bare_mail}
use sentio.Server.Session.Login.{handle_auth_begin}
use sentio.Server.Session.Acceptance.{
  IsWelcome, handle_mail_from_accepts, handle_rcpt_to_accepts, handle_auth_begin_secure,
}
use sentio.Server.Session.Contract.{IsDeliverable, IsContract}
use sentio.Server.Session.Contract.Run.{run_keeps}
use sentio.Server.Session.Termination.{run_ends}
use sentio.Server.Session.Guards.{run_unauthenticated}
use sentio.Server.Session.Samples.{Log, deps, config, line, stream}

abbrev ended : Option (Round Unit Log) → Round Unit Log
ended none = died (new_session stream config 9 smtp false) []
ended (some r) = r

abbrev session : Round Unit Log
session = ended (run deps 20 (new_session stream config 9 smtp false) [])

session_ends : run deps 20 (new_session stream config 9 smtp false) [] ≡ some session
unfolding run new_session write_response reset_envelope command_loop round after_line count_line
    handle_line handle_command read_line line_or split_line strip_cr find_terminator finish_data
    data_or read_data_from read_data parse has_non_ascii dot_unstuff dot_unstuff_from greet
    handle_ehlo refuses_domain handle_mail_from sender_allowed handle_rcpt_to smtputf8_of
    complete_path handle_quit offered mechanisms handle_data after_data deliver inbound_message
    finish_message reply_to dsn_notify_of dsn_orcpt_of insert run_processor contains starts_with
    is_empty
session_ends = refl

abbrev bodies : Log → List (List ℕ)
bodies [] = []
bodies (m ∷ ms) = m.raw_data ∷ bodies ms

session_message : bodies (world_of session) ≡ line ".hi" ∷ []
unfolding run new_session write_response reset_envelope command_loop round after_line count_line
    handle_line handle_command read_line line_or split_line strip_cr find_terminator finish_data
    data_or read_data_from read_data parse has_non_ascii dot_unstuff dot_unstuff_from greet
    handle_ehlo refuses_domain handle_mail_from sender_allowed handle_rcpt_to smtputf8_of
    complete_path handle_quit offered mechanisms handle_data after_data deliver inbound_message
    finish_message reply_to dsn_notify_of dsn_orcpt_of insert run_processor contains starts_with
    is_empty
session_message = refl

-- The log has one message for each that was counted, all of them deliverable.
abbrev IsLog : ℕ → Log → Type 0
IsLog n log = (length log ≡ n) × All (IsDeliverable config smtp) log

log_message-IsLog :
    (n : ℕ) (msg : InboundMessage) (log : Log)
    → IsDeliverable config smtp msg
    → IsLog n log
    → IsLog (n + 1) (run_processor deps deps.message_processor msg log).1
unfolding run_processor
log_message-IsLog n msg log m h = (
  omega (arith, h.0, length-append log (msg ∷ [])),
  All-append (IsDeliverable config smtp) log (msg ∷ []) h.1 (m, tt),
)

domain_check-IsLog :
    (n : ℕ) (user : Option AuthResult) (path : Text) (log : Log)
    → IsLog n log
    → IsLog n (run_domain_check deps deps.domain_check user path log).1
unfolding run_domain_check
domain_check-IsLog n user path log h = h

deps-IsContract : IsContract deps IsLog config smtp
deps-IsContract = record {
  begins = λ n args cb w p. p;
  continues = λ n a bytes cb w p. p;
  fails = λ n peer w p. p;
  succeeds = λ n peer w p. p;
  checks = domain_check-IsLog;
  processes = λ n msg w h m p. log_message-IsLog n msg w m p;
}

run_keeps_example :
    IsLog (session_of session).message_count (world_of session)
    × ((session_of session).message_count ≤ 2)
run_keeps_example =
    run_keeps deps IsLog config 20 stream 9 smtp false [] session deps-IsContract (refl, tt)
      session_ends

run_ends_example : is_some (run deps 20 (new_session stream config 9 smtp false) []) ≡ true
run_ends_example = run_ends deps 20 stream config 9 smtp false [] (omega arith)

run_unauthenticated_example :
    ((session_of session).authenticated ≡ none) × ((session_of session).auth_state ≡ none)
run_unauthenticated_example =
    run_unauthenticated deps false smtp 20 stream config 9 [] session refl session_ends

-- A session after the upgrade to TLS, that the loop runs with no greeting.
abbrev secured : Session Unit
secured = new_session stream config 9 smtp true

abbrev looped : Round Unit Log
looped = ended (command_loop deps 20 secured [])

loop_ends : command_loop deps 20 secured [] ≡ some looped
unfolding run new_session write_response reset_envelope command_loop round after_line count_line
    handle_line handle_command read_line line_or split_line strip_cr find_terminator finish_data
    data_or read_data_from read_data parse has_non_ascii dot_unstuff dot_unstuff_from greet
    handle_ehlo refuses_domain handle_mail_from sender_allowed handle_rcpt_to smtputf8_of
    complete_path handle_quit offered mechanisms handle_data after_data deliver inbound_message
    finish_message reply_to dsn_notify_of dsn_orcpt_of insert run_processor contains starts_with
    is_empty
loop_ends = refl

command_loop-IsValid_example : IsValid (session_of looped)
command_loop-IsValid_example =
    command_loop-IsValid deps 20 secured [] looped (new_session-IsValid stream config 9 smtp true)
      loop_ends

-- A session that has been greeted, and the arguments of a MAIL and a RCPT.
abbrev welcome : Session Unit
welcome = record secured { state = greeted; client_domain = some (codes "me.org") }

abbrev sender : MailFromParams
sender = bare_mail (codes "a@me.org")

abbrev recipient : RcptToParams
recipient = record { path = codes "b@mx.org"; notify = none; orcpt = none }

sender_taken :
    ((handle_mail_from deps welcome sender []).0.code ≡ 250) ↔ IsWelcome deps welcome sender []
sender_taken = handle_mail_from_accepts deps welcome sender []

rcpt_accepted : ((handle_rcpt_to welcome recipient).0.code ≡ 250) ↔ (
    (takes_rcpt greeted ≡ true)
    × (0 < 2)
    × ((has_non_ascii (codes "b@mx.org") && not (smtputf8_of none)) ≡ false))
unfolding new_session
rcpt_accepted = handle_rcpt_to_accepts welcome recipient

login_without_tls :
    ((handle_auth_begin deps
        (new_session stream config 9 smtp false)
        (codes "PLAIN")
        []).1.auth_state
      ≡ none)
    × ((handle_auth_begin deps
          (new_session stream config 9 smtp false)
          (codes "PLAIN")
          []).1.authenticated
        ≡ none)
    × ((handle_auth_begin deps (new_session stream config 9 smtp false) (codes "PLAIN") []).2 ≡ [])
unfolding new_session
login_without_tls =
    handle_auth_begin_secure deps (new_session stream config 9 smtp false) (codes "PLAIN") [] refl
