-- ===== src/Server/Session/Invariant/Envelope.antt =====
-- EHLO, HELO, MAIL, RCPT, RSET, QUIT and XCLIENT of session.rs keep the invariant of a session.
use sentio.Common.{[], ◌∷◌, arith, length-append}
use sentio.Common.Text.{Text}
use sentio.Server.Commands.Types.{MailFromParams, RcptToParams, XClientParams}
use sentio.Server.Session.Types.{Session, SessionDeps}
use sentio.Server.Session.Envelope.{
  complete_path, handle_ehlo, handle_helo, handle_rcpt_to, handle_quit, handle_rset, handle_xclient,
  handle_mail_from,
}
use sentio.Server.Session.Invariant.{IsValid}

module _ {A : Type 0} where
  pub handle_ehlo-IsValid :
      (s : Session A) (domain : Text) → IsValid s → IsValid (handle_ehlo s domain).1
  unfolding handle_ehlo
  handle_ehlo-IsValid s domain v = ground arith

  pub handle_helo-IsValid :
      (s : Session A) (domain : Text) → IsValid s → IsValid (handle_helo s domain).1
  unfolding handle_helo
  handle_helo-IsValid s domain v = ground arith

  pub handle_rcpt_to-IsValid :
      (s : Session A) (params : RcptToParams) → IsValid s → IsValid (handle_rcpt_to s params).1
  unfolding handle_rcpt_to
  handle_rcpt_to-IsValid s params v =
      ground
        (arith, length-append s.rcpt_to (record params { path = complete_path s params.path } ∷ []))

  pub handle_quit-IsValid : (s : Session A) → IsValid s → IsValid (handle_quit s).1
  unfolding handle_quit
  handle_quit-IsValid s v = ground arith

  pub handle_rset-IsValid : (s : Session A) → IsValid s → IsValid (handle_rset s).1
  unfolding handle_rset
  handle_rset-IsValid s v = ground arith

  pub handle_xclient-IsValid :
      (s : Session A) (params : XClientParams) → IsValid s → IsValid (handle_xclient s params).1
  unfolding handle_xclient
  handle_xclient-IsValid s params v = ground arith

  pub handle_mail_from-IsValid :
      {W : Type 0} (d : SessionDeps A W) (s : Session A) (params : MailFromParams) (w : W)
      → IsValid s
      → IsValid (handle_mail_from d s params w).1
  unfolding handle_mail_from
  handle_mail_from-IsValid d s params w v = ground arith
