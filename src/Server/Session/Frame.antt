-- ===== src/Server/Session/Frame.antt =====
-- What the handlers of session.rs leave alone: the configuration, the mode, TLS and the count of
-- commands; and none of them puts input back.
use sentio.Common.{
  ℕ, ◌≤◌, Bool, true, false, List, [], ◌++◌, Option, none, some, ◌≡◌, ◌⊎◌, arith, Result, ok, err,
}
use sentio.Common.Text.{Text}
use sentio.Server.Response.{SmtpResponse, start_data}
use sentio.Server.Commands.Types.{
  SmtpCommand, ehlo, helo, mail_from, rcpt_to, data_cmd, quit, rset, auth, bdat, xclient,
  MailFromParams, RcptToParams, XClientParams,
}
use sentio.Server.Commands.Line.{parse}
use sentio.Server.Reader
use sentio.Server.Reader.{ReadError, io, line_too_long}
use sentio.Server.Reader.Progress.{input, read_data-input, read_exact_bytes-input}
use sentio.Server.Session.Types.{
  CommandResult, response, Session, SessionDeps, AuthProgress, complete, challenge, data_state,
  write_response, reset_envelope,
}
use sentio.Server.Session.Envelope.{
  contains_ip, greet, handle_ehlo, handle_helo, handle_mail_from, handle_rcpt_to, handle_quit,
  handle_rset, handle_xclient,
}
use sentio.Server.Session.Messages.{
  with_input, finish_message, deliver, data_reading, chunk_reading, after_data, handle_data,
  refuse_chunk, after_chunk, handle_bdat,
}
use sentio.Server.Session.Login.{
  cb_data, handle_auth_failure, after_auth, handle_auth_begin, handle_auth_data,
}
use sentio.Server.Session.Loop.{handle_command, handle_line}

pub record Frame {A : Type 0} (s s' : Session A) : Type 0 where
  pub config : s'.config ≡ s.config
  pub mode : s'.listener_mode ≡ s.listener_mode
  pub tls : s'.tls_active ≡ s.tls_active
  pub count : s'.command_count ≡ s.command_count
  pub peer :
      contains_ip s.config.xclient_allowed_ips s.peer_addr ≡ false
        ⊎ (s.config.xclient_enabled ≡ false)
      → s'.peer_addr ≡ s.peer_addr
  pub left : input s'.read_buf s'.pending ≤ input s.read_buf s.pending

module _ {A : Type 0} where
  handle_ehlo-Frame : (s : Session A) (domain : Text) → Frame s (handle_ehlo s domain).1
  unfolding handle_ehlo greet reset_envelope
  handle_ehlo-Frame s domain = ground arith

  handle_helo-Frame : (s : Session A) (domain : Text) → Frame s (handle_helo s domain).1
  unfolding handle_helo greet reset_envelope
  handle_helo-Frame s domain = ground arith

  handle_rcpt_to-Frame :
      (s : Session A) (params : RcptToParams) → Frame s (handle_rcpt_to s params).1
  unfolding handle_rcpt_to
  handle_rcpt_to-Frame s params = ground arith

  handle_quit-Frame : (s : Session A) → Frame s (handle_quit s).1
  unfolding handle_quit
  handle_quit-Frame s = ground arith

  handle_rset-Frame : (s : Session A) → Frame s (handle_rset s).1
  unfolding handle_rset reset_envelope
  handle_rset-Frame s = ground arith

  handle_xclient-Frame :
      (s : Session A) (params : XClientParams) → Frame s (handle_xclient s params).1
  unfolding handle_xclient reset_envelope
  handle_xclient-Frame s params = ground arith

module _ {A W : Type 0} (d : SessionDeps A W) where
  handle_mail_from-Frame :
      (s : Session A) (params : MailFromParams) (w : W) → Frame s (handle_mail_from d s params w).1
  unfolding handle_mail_from
  handle_mail_from-Frame s params w = ground arith

  deliver-Frame : (s : Session A) (bytes : List ℕ) (w : W) → Frame s (deliver d s bytes w).1
  unfolding deliver finish_message reset_envelope
  deliver-Frame s bytes w = ground arith

  after_data-Frame :
      (s : Session A) (r : Result ReadError (List ℕ)) (w : W) → Frame s (after_data d s r w).1
  unfolding after_data reset_envelope
  after_data-Frame s (ok bytes) w = deliver-Frame s bytes w
  after_data-Frame s (err Reader.timeout) w = ground arith
  after_data-Frame s (err line_too_long) w = ground arith
  after_data-Frame s (err io) w = ground arith

  handle_data-Frame : (s : Session A) (w : W) → Frame s (handle_data d s w).1
  unfolding handle_data write_response
  handle_data-Frame s w =
      let s' = (write_response (record s { state = data_state }) start_data).1 in
      let r = data_reading d s' in
      ground (
        arith,
        after_data-Frame (with_input s' r) r.result w,
        read_data-input s.config.max_message_size s.read_buf s.pending,
      )

  refuse_chunk-Frame :
      (s : Session A) (r : Result ReadError (List ℕ)) (w : W) → Frame s (refuse_chunk d s r w).1
  unfolding refuse_chunk reset_envelope
  refuse_chunk-Frame s (ok bytes) w = ground arith
  refuse_chunk-Frame s (err e) w = ground arith

  after_chunk-Frame :
      (s : Session A) (last : Bool) (r : Result ReadError (List ℕ)) (w : W)
      → Frame s (after_chunk d s last r w).1
  unfolding after_chunk
  after_chunk-Frame s false (ok chunk) w = ground arith
  after_chunk-Frame s true (ok chunk) w =
      ground (arith, deliver-Frame (record s { bdat_data = [] }) (s.bdat_data ++ chunk) w)
  after_chunk-Frame s last (err Reader.timeout) w = ground arith
  after_chunk-Frame s last (err line_too_long) w = ground arith
  after_chunk-Frame s last (err io) w = ground arith

  handle_bdat-Frame :
      (s : Session A) (size : ℕ) (last : Bool) (w : W) → Frame s (handle_bdat d s size last w).1
  unfolding handle_bdat
  handle_bdat-Frame s size last w =
      let r = chunk_reading d s size in
      ground (
        arith,
        refuse_chunk-Frame (with_input s r) r.result w,
        after_chunk-Frame (with_input s r) last r.result w,
        read_exact_bytes-input size s.read_buf s.pending,
      )

  after_auth-Frame :
      (s : Session A) (r : Result SmtpResponse (AuthProgress A)) (w : W)
      → Frame s (after_auth d s r w).1
  unfolding after_auth handle_auth_failure
  after_auth-Frame s (ok (complete result)) w = ground arith
  after_auth-Frame s (ok (challenge a r)) w = ground arith
  after_auth-Frame s (err r) w = ground arith

  handle_auth_begin-Frame :
      (s : Session A) (args : Text) (w : W) → Frame s (handle_auth_begin d s args w).1
  unfolding handle_auth_begin
  handle_auth_begin-Frame s args w =
      let p = d.begin_auth args (cb_data d s) w in ground (arith, after_auth-Frame s p.0 p.1)

  handle_auth_data-Frame :
      (s : Session A) (a : A) (line : List ℕ) (w : W) → Frame s (handle_auth_data d s a line w).1
  unfolding handle_auth_data
  handle_auth_data-Frame s a line w =
      let p = d.continue_auth a line (cb_data d s) w in
      ground (arith, after_auth-Frame (record s { auth_state = none }) p.0 p.1)

  handle_command-Frame :
      (s : Session A) (cmd : SmtpCommand) (w : W) → Frame s (handle_command d s cmd w).1
  unfolding handle_command
  handle_command-Frame s (ehlo domain) w = handle_ehlo-Frame s domain
  handle_command-Frame s (helo domain) w = handle_helo-Frame s domain
  handle_command-Frame s (mail_from params) w = handle_mail_from-Frame s params w
  handle_command-Frame s (rcpt_to params) w = handle_rcpt_to-Frame s params
  handle_command-Frame s data_cmd w = handle_data-Frame s w
  handle_command-Frame s (bdat size last) w = handle_bdat-Frame s size last w
  handle_command-Frame s quit w = handle_quit-Frame s
  handle_command-Frame s rset w = handle_rset-Frame s
  handle_command-Frame s (auth args) w = handle_auth_begin-Frame s args w
  handle_command-Frame s (xclient params) w = handle_xclient-Frame s params
  handle_command-Frame s _ w = ground arith

  -- No line changes the configuration, the mode, TLS or the count, or adds input.
  pub handle_line-Frame :
      (s : Session A) (st : Option A) (line : List ℕ) (w : W)
      → Frame s (handle_line d s st line w).1
  unfolding handle_line
  handle_line-Frame s (some a) line w = handle_auth_data-Frame s a line w
  handle_line-Frame s none line w = parsed (parse d.parse_ip line)
    where
      parsed :
          (p : Result SmtpResponse SmtpCommand)
          → Frame s
              (elim p as (λ _. CommandResult × Session A × W) [
                | ok cmd ↦ handle_command d s cmd w
                | err resp ↦ (response resp, s, w)
              ]).1
      parsed (ok cmd) = handle_command-Frame s cmd w
      parsed (err resp) = ground arith
