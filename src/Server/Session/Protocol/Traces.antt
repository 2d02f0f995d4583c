-- ===== src/Server/Session/Protocol/Traces.antt =====
-- A session of session.rs over a list of commands, and what must have come before a message.
use sentio.Common.{List, [], ◌∷◌, ◌≡◌, subst}
use sentio.Server.Commands.Types.{
  SmtpCommand, mail_from as mail, rcpt_to as rcpt, MailFromParams, RcptToParams,
}
use sentio.Server.Session.Types.{
  SessionState, connected, greeted, mail_from, rcpt_to, data_state, bdat, done, Session,
  SessionDeps, CommandResult,
}
use sentio.Server.Session.Loop.{handle_command}
use sentio.Server.Session.Protocol.{
  first_chunk, later_chunk, Transition, refused, extended_hello, hello, begins, exhausted,
  first_recipient, next_recipient, message_done, message_lost, not_prompted, next_chunk, last_chunk,
  large_chunk, chunk_lost, huge_chunk, leaves, resets, nothing_to_reset, restarts, exchanges,
  locked_out, upgrades, idles, verifies, helps, Trace, start, step,
}
use sentio.Server.Session.Protocol.Refinement.{handle_command-Transition}

-- The latest command is the first of the list. A MAIL has been sent, and a RCPT after a MAIL.
pub data HasSender : List SmtpCommand → Type 0 where
  now_sender : (params : MailFromParams) (cs : List SmtpCommand) → HasSender (mail params ∷ cs)
  past_sender : (c : SmtpCommand) (cs : List SmtpCommand) → HasSender cs → HasSender (c ∷ cs)

pub data HasRecipient : List SmtpCommand → Type 0 where
  now_recipient :
      (params : RcptToParams) (cs : List SmtpCommand)
      → HasSender cs
      → HasRecipient (rcpt params ∷ cs)
  past_recipient :
      (c : SmtpCommand) (cs : List SmtpCommand) → HasRecipient cs → HasRecipient (c ∷ cs)

-- What a state says of the commands that led to it.
abbrev pub Explained : SessionState → List SmtpCommand → Type 0
Explained mail_from cs = HasSender cs
Explained rcpt_to cs = HasRecipient cs
Explained data_state cs = HasRecipient cs
Explained bdat cs = HasRecipient cs
Explained _ cs = Unit

keep :
    (s : SessionState) (c : SmtpCommand) (cs : List SmtpCommand)
    → Explained s cs
    → Explained s (c ∷ cs)
keep mail_from c cs h = past_sender c cs h
keep rcpt_to c cs h = past_recipient c cs h
keep data_state c cs h = past_recipient c cs h
keep bdat c cs h = past_recipient c cs h
keep connected c cs h = tt
keep greeted c cs h = tt
keep done c cs h = tt

Transition-Explained :
    (s t : SessionState) (c : SmtpCommand) (r : CommandResult) (cs : List SmtpCommand)
    → Transition s c r t
    → Explained s cs
    → Explained t (c ∷ cs)
Transition-Explained _ _ _ _ cs (refused s c r code) h = keep s c cs h
Transition-Explained _ _ _ _ cs (extended_hello s domain r code) h = tt
Transition-Explained _ _ _ _ cs (hello s domain r code) h = tt
Transition-Explained _ _ _ _ cs (begins params r code) h = now_sender params cs
Transition-Explained _ _ _ _ cs (exhausted params r code) h = tt
Transition-Explained _ _ _ _ cs (first_recipient params r code) h = now_recipient params cs h
Transition-Explained _ _ _ _ cs (next_recipient params r code) h = past_recipient _ cs h
Transition-Explained _ _ _ _ cs (message_done r) h = tt
Transition-Explained _ _ _ _ cs (message_lost r code) h = tt
Transition-Explained _ _ _ _ cs (not_prompted r code) h = past_recipient _ cs h
Transition-Explained _ _ _ _ cs (next_chunk _ size r first_chunk code) h = past_recipient _ cs h
Transition-Explained _ _ _ _ cs (next_chunk _ size r later_chunk code) h = past_recipient _ cs h
Transition-Explained _ _ _ _ cs (last_chunk s size r k) h = tt
Transition-Explained _ _ _ _ cs (large_chunk s size last r k code) h = tt
Transition-Explained _ _ _ _ cs (chunk_lost s size last r k code) h = tt
Transition-Explained _ _ _ _ cs (huge_chunk s size last k huge) h = keep s _ cs h
Transition-Explained _ _ _ _ cs (leaves s r code) h = tt
Transition-Explained _ _ _ _ cs (resets s r n code) h = tt
Transition-Explained _ _ _ _ cs (nothing_to_reset r code) h = tt
Transition-Explained _ _ _ _ cs (restarts params r code) h = tt
Transition-Explained _ _ _ _ cs (exchanges s args r o) h = keep s _ cs h
Transition-Explained _ _ _ _ cs (locked_out s args r o code) h = tt
Transition-Explained _ _ _ _ cs upgrades h = tt
Transition-Explained _ _ _ _ cs (idles s r code) h = keep s _ cs h
Transition-Explained _ _ _ _ cs (verifies s text r code) h = keep s _ cs h
Transition-Explained _ _ _ _ cs (helps s r code) h = keep s _ cs h

Trace-Explained : (t : SessionState) (cs : List SmtpCommand) → Trace connected cs t → Explained t cs
Trace-Explained _ _ start = tt
Trace-Explained _ _ (step t u c r cs h k) =
    Transition-Explained t u c r cs k (Trace-Explained t cs h)

module _ {A W : Type 0} (d : SessionDeps A W) where
  -- The commands one after another, the latest of them first in the list.
  abbrev pub handle_commands : Session A → List SmtpCommand → W → Session A × W
  handle_commands s [] w = (s, w)
  handle_commands s (c ∷ cs) w =
      let p = handle_commands s cs w in let r = handle_command d p.0 c p.1 in (r.1, r.2)

  handle_commands-Trace :
      (s : Session A) (cs : List SmtpCommand) (w : W)
      → Trace s.state cs (handle_commands s cs w).0.state
  handle_commands-Trace s [] w = start
  handle_commands-Trace s (c ∷ cs) w =
      let p = handle_commands s cs w in
      step p.0.state _ c _ cs (handle_commands-Trace s cs w) (handle_command-Transition d p.0 c p.1)

  -- A session that begins in the state `connected` and has come to `rcpt_to`, in which it takes a
  -- message, by a list of commands has sent a RCPT, and a MAIL before it.
  pub handle_commands_addressed :
      (s : Session A) (cs : List SmtpCommand) (w : W)
      → s.state ≡ connected
      → (handle_commands s cs w).0.state ≡ rcpt_to
      → HasRecipient cs
  handle_commands_addressed s cs w e f =
      subst (λ t. Explained t cs) f
        (Trace-Explained _ cs (
          subst (λ a. Trace a cs (handle_commands s cs w).0.state) e
            (handle_commands-Trace s cs w)))
