-- ===== src/Server/Session/Protocol/Tests.antt =====
-- A session of session.rs on a list of commands.
use sentio.Common.{false, List, [], ◌∷◌, refl, none}
use sentio.Common.Text.{codes, is_empty}
use sentio.Server.Validation.{has_non_ascii}
use sentio.Server.Commands.Types.{SmtpCommand, ehlo, mail_from as mail, rcpt_to as rcpt}
use sentio.Server.Commands.MailFrom.{bare_mail}
use sentio.Server.Session.Types.{Session, smtp, new_session}
use sentio.Server.Session.Envelope.{
  handle_ehlo, refuses_domain, greet, handle_mail_from, sender_allowed, handle_rcpt_to, smtputf8_of,
}
use sentio.Server.Session.Loop.{handle_command}
use sentio.Server.Session.Samples.{deps, config, stream}
use sentio.Server.Session.Protocol.Traces.{HasRecipient, handle_commands_addressed}

abbrev fresh : Session Unit
fresh = new_session stream config 9 smtp false

abbrev commands : List SmtpCommand
commands =
    rcpt (record { path = codes "b@mx.org"; notify = none; orcpt = none })
    ∷ mail (bare_mail (codes "a@me.org"))
    ∷ ehlo (codes "me.org")
    ∷ []

handle_commands_addressed_example : HasRecipient commands
unfolding new_session handle_command handle_ehlo refuses_domain greet handle_mail_from
    sender_allowed has_non_ascii handle_rcpt_to smtputf8_of is_empty
handle_commands_addressed_example = handle_commands_addressed deps fresh commands [] refl refl
