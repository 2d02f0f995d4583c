-- ===== src/Server/Session/LoginFrame.antt =====
-- What the handlers of crates/sentio-smtp-server/src/session.rs that have to do with no login leave
-- alone.
use sentio.Common.{ℕ, Bool, List, ◌≡◌, ◌≢◌, refl, true, false, [], ◌++◌, arith, Result, ok, err}
use sentio.Common.Text.{Text}
use sentio.Server.Commands.Types.{
  SmtpCommand, ehlo, helo, mail_from, rcpt_to, data_cmd, quit, rset, auth, bdat, xclient,
  MailFromParams, RcptToParams, XClientParams,
}
use sentio.Server.Session.Types.{Session, SessionDeps, reset_envelope, data_state, write_response}
use sentio.Server.Session.Envelope.{
  greet, handle_ehlo, handle_helo, handle_mail_from, handle_rcpt_to, handle_quit, handle_rset,
  handle_xclient,
}
use sentio.Server.Session.Messages.{
  with_input, finish_message, deliver, data_reading, chunk_reading, after_data, handle_data,
  refuse_chunk, after_chunk, handle_bdat,
}
use sentio.Server.Session.Loop.{handle_command}
use sentio.Server.Reader
use sentio.Server.Reader.{ReadError, io, line_too_long}
use sentio.Server.Response.{start_data}

pub record SameLogin {A : Type 0} (s s' : Session A) : Type 0 where
  pub user : s'.authenticated ≡ s.authenticated
  pub exchange : s'.auth_state ≡ s.auth_state

module _ {A : Type 0} where
  handle_ehlo-SameLogin : (s : Session A) (domain : Text) → SameLogin s (handle_ehlo s domain).1
  unfolding handle_ehlo greet reset_envelope
  handle_ehlo-SameLogin s domain = ground arith

  handle_helo-SameLogin : (s : Session A) (domain : Text) → SameLogin s (handle_helo s domain).1
  unfolding handle_helo greet reset_envelope
  handle_helo-SameLogin s domain = ground arith

  handle_rcpt_to-SameLogin :
      (s : Session A) (params : RcptToParams) → SameLogin s (handle_rcpt_to s params).1
  unfolding handle_rcpt_to
  handle_rcpt_to-SameLogin s params = ground arith

  handle_quit-SameLogin : (s : Session A) → SameLogin s (handle_quit s).1
  unfolding handle_quit
  handle_quit-SameLogin s = ground arith

  handle_rset-SameLogin : (s : Session A) → SameLogin s (handle_rset s).1
  unfolding handle_rset reset_envelope
  handle_rset-SameLogin s = ground arith

  handle_xclient-SameLogin :
      (s : Session A) (params : XClientParams) → SameLogin s (handle_xclient s params).1
  unfolding handle_xclient reset_envelope
  handle_xclient-SameLogin s params = ground arith

module _ {A W : Type 0} (d : SessionDeps A W) where
  handle_mail_from-SameLogin :
      (s : Session A) (params : MailFromParams) (w : W)
      → SameLogin s (handle_mail_from d s params w).1
  unfolding handle_mail_from
  handle_mail_from-SameLogin s params w = ground arith

  deliver-SameLogin : (s : Session A) (bytes : List ℕ) (w : W) → SameLogin s (deliver d s bytes w).1
  unfolding deliver finish_message reset_envelope
  deliver-SameLogin s bytes w = ground arith

  after_data-SameLogin :
      (s : Session A) (r : Result ReadError (List ℕ)) (w : W) → SameLogin s (after_data d s r w).1
  unfolding after_data reset_envelope
  after_data-SameLogin s (ok bytes) w = deliver-SameLogin s bytes w
  after_data-SameLogin s (err Reader.timeout) w = ground arith
  after_data-SameLogin s (err line_too_long) w = ground arith
  after_data-SameLogin s (err io) w = ground arith

  handle_data-SameLogin : (s : Session A) (w : W) → SameLogin s (handle_data d s w).1
  unfolding handle_data write_response
  handle_data-SameLogin s w =
      let s' = (write_response (record s { state = data_state }) start_data).1 in
      let r = data_reading d s' in ground (arith, after_data-SameLogin (with_input s' r) r.result w)

  refuse_chunk-SameLogin :
      (s : Session A) (r : Result ReadError (List ℕ)) (w : W) → SameLogin s (refuse_chunk d s r w).1
  unfolding refuse_chunk reset_envelope
  refuse_chunk-SameLogin s (ok bytes) w = ground arith
  refuse_chunk-SameLogin s (err e) w = ground arith

  after_chunk-SameLogin :
      (s : Session A) (last : Bool) (r : Result ReadError (List ℕ)) (w : W)
      → SameLogin s (after_chunk d s last r w).1
  unfolding after_chunk
  after_chunk-SameLogin s false (ok chunk) w = ground arith
  after_chunk-SameLogin s true (ok chunk) w =
      ground (arith, deliver-SameLogin (record s { bdat_data = [] }) (s.bdat_data ++ chunk) w)
  after_chunk-SameLogin s last (err Reader.timeout) w = ground arith
  after_chunk-SameLogin s last (err line_too_long) w = ground arith
  after_chunk-SameLogin s last (err io) w = ground arith

  handle_bdat-SameLogin :
      (s : Session A) (size : ℕ) (last : Bool) (w : W) → SameLogin s (handle_bdat d s size last w).1
  unfolding handle_bdat
  handle_bdat-SameLogin s size last w =
      let r = chunk_reading d s size in
      ground (
        arith,
        refuse_chunk-SameLogin (with_input s r) r.result w,
        after_chunk-SameLogin (with_input s r) last r.result w,
      )

  -- A line that is parsed as a command: only AUTH has to do with the login.
  pub handle_command-SameLogin :
      (s : Session A) (cmd : SmtpCommand) (w : W)
      → ((args : Text) → cmd ≢ auth args)
      → SameLogin s (handle_command d s cmd w).1
  unfolding handle_command
  handle_command-SameLogin s (ehlo domain) w n = handle_ehlo-SameLogin s domain
  handle_command-SameLogin s (helo domain) w n = handle_helo-SameLogin s domain
  handle_command-SameLogin s (mail_from params) w n = handle_mail_from-SameLogin s params w
  handle_command-SameLogin s (rcpt_to params) w n = handle_rcpt_to-SameLogin s params
  handle_command-SameLogin s data_cmd w n = handle_data-SameLogin s w
  handle_command-SameLogin s (bdat size last) w n = handle_bdat-SameLogin s size last w
  handle_command-SameLogin s quit w n = handle_quit-SameLogin s
  handle_command-SameLogin s rset w n = handle_rset-SameLogin s
  handle_command-SameLogin s (auth args) w n = absurd (n args refl)
  handle_command-SameLogin s (xclient params) w n = handle_xclient-SameLogin s params
  handle_command-SameLogin s _ w n = ground arith
