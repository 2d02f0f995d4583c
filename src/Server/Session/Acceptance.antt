-- ===== src/Server/Session/Acceptance.antt =====
-- When session.rs accepts a command: MAIL, RCPT and AUTH.
use sentio.Common.{◌<◌, true, false, not, ◌&&◌, ◌||◌, ◌≡◌, ◌↔◌, arith, length}
use sentio.Common.Text.{Text}
use sentio.Server.Response.{
  mail_ok, rcpt_ok, bad_sequence, too_many_messages, message_too_large, syntax_error,
  too_many_recipients,
}
use sentio.Server.Validation.{has_non_ascii}
use sentio.Server.Commands.Types.{MailFromParams, RcptToParams}
use sentio.Server.Session.Types.{greeted, Session, SessionDeps, takes_rcpt, is_smtps}
use sentio.Server.Session.Envelope.{
  sender_allowed, exceeds, smtputf8_of, handle_mail_from, handle_rcpt_to,
}
use sentio.Server.Session.Login.{handle_auth_begin}

module _ {A W : Type 0} (d : SessionDeps A W) where
  -- What MAIL asks for.
  pub record IsWelcome (s : Session A) (params : MailFromParams) (w : W) : Type 0 where
    pub state : s.state ≡ greeted
    pub quota : s.message_count < s.config.max_messages
    pub fits : exceeds d params.size s.config.max_message_size ≡ false
    pub ascii : (has_non_ascii params.path && not params.smtputf8) ≡ false
    pub allowed : (sender_allowed d s params w).0 ≡ true

  -- MAIL is answered with 250 just when the session is in the state `greeted`, is below its quota of
  -- messages, the declared size is within the limit, a path that is not ASCII comes with SMTPUTF8,
  -- and the sender is allowed.
  pub handle_mail_from_accepts :
      (s : Session A) (params : MailFromParams) (w : W)
      → ((handle_mail_from d s params w).0.code ≡ 250) ↔ IsWelcome s params w
  unfolding handle_mail_from mail_ok bad_sequence too_many_messages message_too_large syntax_error
  handle_mail_from_accepts s params w = ground arith

  -- Without TLS and not on the port for SMTPS, AUTH begins no exchange, logs nobody in and calls no
  -- callback.
  pub handle_auth_begin_secure :
      (s : Session A) (args : Text) (w : W)
      → (s.tls_active || is_smtps s.listener_mode) ≡ false
      → (handle_auth_begin d s args w).1.auth_state ≡ s.auth_state
        × ((handle_auth_begin d s args w).1.authenticated ≡ s.authenticated)
        × ((handle_auth_begin d s args w).2 ≡ w)
  unfolding handle_auth_begin
  handle_auth_begin_secure s args w h = ground arith

module _ {A : Type 0} where
  -- RCPT is answered with 250 just when there is a sender, the list of recipients has room, and a
  -- path that is not ASCII belongs to a message with SMTPUTF8.
  pub handle_rcpt_to_accepts :
      (s : Session A) (params : RcptToParams)
      → ((handle_rcpt_to s params).0.code ≡ 250) ↔ (
          (takes_rcpt s.state ≡ true)
          × (length s.rcpt_to < s.config.max_recipients)
          × ((has_non_ascii params.path && not (smtputf8_of s.mail_from)) ≡ false))
  unfolding handle_rcpt_to rcpt_ok bad_sequence too_many_recipients syntax_error
  handle_rcpt_to_accepts s params = ground arith
