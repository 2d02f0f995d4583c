-- ===== src/Server/Session/Contract/Handlers.antt =====
-- The handlers of session.rs keep what a contract of Contract keeps.
use sentio.Common.{ℕ, List, Option, none, some, ◌≡◌, sym, subst, arith, Result, ok, err}
use sentio.Common.Text.{Text}
use sentio.Server.Response.{SmtpResponse}
use sentio.Server.Commands.Types.{
  SmtpCommand, ehlo, helo, mail_from, rcpt_to, data_cmd, quit, rset, auth, bdat, xclient,
  MailFromParams, RcptToParams, XClientParams,
}
use sentio.Server.Commands.Line.{parse}
use sentio.Server.Session.Types.{
  CommandResult, response, Session, SessionDeps, AuthProgress, complete, challenge,
}
use sentio.Server.Session.Envelope.{
  sender_allowed, handle_ehlo, handle_helo, handle_mail_from, handle_rcpt_to, handle_quit,
  handle_rset, handle_xclient,
}
use sentio.Server.Session.Login.{
  cb_data, handle_auth_failure, after_auth, handle_auth_begin, handle_auth_data,
}
use sentio.Server.Session.Loop.{handle_command, handle_line}
use sentio.Server.Session.Invariant.{IsValid}
use sentio.Server.Session.Contract.Messages.{After, Contracts, handle_data-After, handle_bdat-After}

module _ {A W : Type 0} (d : SessionDeps A W) (P : ℕ → W → Type 0) where
  after_auth-After :
      (s : Session A) (r : Result SmtpResponse (AuthProgress A)) (w : W)
      → Contracts d P s
      → P s.message_count w
      → After d P (after_auth d s r w)
  unfolding after_auth handle_auth_failure
  after_auth-After s (ok (complete result)) w c p = c.succeeds s.message_count s.peer_addr w p
  after_auth-After s (ok (challenge a r)) w c p = p
  after_auth-After s (err r) w c p = ground (arith, c.fails s.message_count s.peer_addr w p)

  handle_auth_begin-After :
      (s : Session A) (args : Text) (w : W)
      → Contracts d P s
      → P s.message_count w
      → After d P (handle_auth_begin d s args w)
  unfolding handle_auth_begin
  handle_auth_begin-After s args w c p =
      let q = d.begin_auth args (cb_data d s) w in
      ground (arith, after_auth-After s q.0 q.1 c (c.begins s.message_count args (cb_data d s) w p))

  handle_auth_data-After :
      (s : Session A) (a : A) (line : List ℕ) (w : W)
      → Contracts d P s
      → P s.message_count w
      → After d P (handle_auth_data d s a line w)
  unfolding handle_auth_data
  handle_auth_data-After s a line w c p =
      let q = d.continue_auth a line (cb_data d s) w in
      after_auth-After (record s { auth_state = none }) q.0 q.1 c
        (c.continues s.message_count a line (cb_data d s) w p)

  handle_mail_from-After :
      (s : Session A) (params : MailFromParams) (w : W)
      → Contracts d P s
      → P s.message_count w
      → After d P (handle_mail_from d s params w)
  unfolding handle_mail_from sender_allowed
  handle_mail_from-After s params w c p =
      ground (arith, c.checks s.message_count s.authenticated params.path w p)

  handle_ehlo_count :
      (s : Session A) (domain : Text) → (handle_ehlo s domain).1.message_count ≡ s.message_count
  unfolding handle_ehlo
  handle_ehlo_count s domain = ground arith

  handle_helo_count :
      (s : Session A) (domain : Text) → (handle_helo s domain).1.message_count ≡ s.message_count
  unfolding handle_helo
  handle_helo_count s domain = ground arith

  handle_rcpt_to_count :
      (s : Session A) (params : RcptToParams)
      → (handle_rcpt_to s params).1.message_count ≡ s.message_count
  unfolding handle_rcpt_to
  handle_rcpt_to_count s params = ground arith

  handle_rset_count : (s : Session A) → (handle_rset s).1.message_count ≡ s.message_count
  unfolding handle_rset
  handle_rset_count s = ground arith

  handle_xclient_count :
      (s : Session A) (params : XClientParams)
      → (handle_xclient s params).1.message_count ≡ s.message_count
  unfolding handle_xclient
  handle_xclient_count s params = ground arith

  counted : (n m : ℕ) (w : W) → n ≡ m → P m w → P n w
  counted n m w e p = subst (λ k. P k w) (sym e) p

  handle_command-After :
      (s : Session A) (cmd : SmtpCommand) (w : W)
      → IsValid s
      → Contracts d P s
      → P s.message_count w
      → After d P (handle_command d s cmd w)
  unfolding handle_command handle_quit
  handle_command-After s (ehlo domain) w v c p = counted _ _ w (handle_ehlo_count s domain) p
  handle_command-After s (helo domain) w v c p = counted _ _ w (handle_helo_count s domain) p
  handle_command-After s (mail_from params) w v c p = handle_mail_from-After s params w c p
  handle_command-After s (rcpt_to params) w v c p = counted _ _ w (handle_rcpt_to_count s params) p
  handle_command-After s data_cmd w v c p = handle_data-After d P s w v c p
  handle_command-After s (bdat size last) w v c p = handle_bdat-After d P s size last w v c p
  handle_command-After s quit w v c p = p
  handle_command-After s rset w v c p = counted _ _ w (handle_rset_count s) p
  handle_command-After s (auth args) w v c p = handle_auth_begin-After s args w c p
  handle_command-After s (xclient params) w v c p = counted _ _ w (handle_xclient_count s params) p
  handle_command-After s _ w v c p = p

  -- A line keeps what the contract keeps.
  pub handle_line-After :
      (s : Session A) (st : Option A) (line : List ℕ) (w : W)
      → IsValid s
      → Contracts d P s
      → P s.message_count w
      → After d P (handle_line d s st line w)
  unfolding handle_line
  handle_line-After s (some a) line w v c p = handle_auth_data-After s a line w c p
  handle_line-After s none line w v c p = parsed (parse d.parse_ip line)
    where
      parsed :
          (q : Result SmtpResponse SmtpCommand)
          → After d P (elim q as (λ _. CommandResult × Session A × W) [
            | ok cmd ↦ handle_command d s cmd w
            | err resp ↦ (response resp, s, w)
          ])
      parsed (ok cmd) = handle_command-After s cmd w v c p
      parsed (err resp) = p
