-- ===== src/Server/Session/Loop.antt =====
-- The command loop: `handle_command`, `command_loop`, `run` and `run_after_starttls` of
-- crates/sentio-smtp-server/src/session.rs.
use sentio.Common.{
  ℕ, zero, suc, ◌+◌, Bool, false, List, [], ◌∷◌, Option, none, some, ltb, if◌then◌else◌, Result, ok,
  err,
}
use sentio.Common.Text.{codes}
use sentio.Server.Response.{
  SmtpResponse, new, greeting, ok_reply, command_not_recognized, command_not_implemented,
  line_too_long_reply, ready_starttls, timeout, service_unavailable,
}
use sentio.Server.Commands.Types.{
  SmtpCommand, ehlo, helo, mail_from, rcpt_to, data_cmd, quit, rset, noop, vrfy, help, start_tls,
  auth, bdat, xclient, not_implemented, unknown,
}
use sentio.Server.Commands.Line.{parse}
use sentio.Server.Reader.{Reading, ReadError, io, line_too_long, read_line}
use sentio.Server.Reader
use sentio.Server.Session.Types.{
  connected, CommandResult, response, upgrade, panicked, SessionOutcome, closed, SessionDeps,
  Session, write_response, is_done,
}
use sentio.Server.Session.Types
use sentio.Server.Session.Envelope.{
  handle_ehlo, handle_helo, handle_mail_from, handle_rcpt_to, handle_quit, handle_rset,
  handle_xclient, handle_starttls,
}
use sentio.Server.Session.Messages.{handle_data, handle_bdat, with_input, replied}
use sentio.Server.Session.Login.{handle_auth_begin, handle_auth_data}

module _ {A W : Type 0} (d : SessionDeps A W) where
  abbrev pub pure_reply : SmtpResponse × Session A → W → CommandResult × Session A × W
  pure_reply (r, s) w = (response r, s, w)

  abbrev pub starttls_result : Option SmtpResponse → CommandResult
  starttls_result none = upgrade
  starttls_result (some r) = response r

  unfoldable pub handle_command : Session A → SmtpCommand → W → CommandResult × Session A × W
  handle_command s (ehlo domain) w = pure_reply (handle_ehlo s domain) w
  handle_command s (helo domain) w = pure_reply (handle_helo s domain) w
  handle_command s (mail_from params) w = replied d (handle_mail_from d s params w)
  handle_command s (rcpt_to params) w = pure_reply (handle_rcpt_to s params) w
  handle_command s data_cmd w = replied d (handle_data d s w)
  handle_command s (bdat size last) w = handle_bdat d s size last w
  handle_command s quit w = pure_reply (handle_quit s) w
  handle_command s rset w = pure_reply (handle_rset s) w
  handle_command s noop w = (response ok_reply, s, w)
  handle_command s (vrfy _) w = (
    response (new 252 (some (codes "2.5.2")) (codes "Cannot verify user, but will accept message")),
    s,
    w,
  )
  handle_command s help w = (
    response (new 214 (some (codes "2.0.0")) (codes "See https://tools.ietf.org/html/rfc5321")),
    s,
    w,
  )
  handle_command s start_tls w = (starttls_result (handle_starttls s), s, w)
  handle_command s (auth args) w = replied d (handle_auth_begin d s args w)
  handle_command s (xclient params) w = pure_reply (handle_xclient s params) w
  handle_command s (not_implemented _) w = (response command_not_implemented, s, w)
  handle_command s (unknown _) w = (response command_not_recognized, s, w)

  -- The line goes to the exchange of AUTH while one is under way, and else to the parser.
  unfoldable pub handle_line : Session A → Option A → List ℕ → W → CommandResult × Session A × W
  handle_line s (some state) line w = replied d (handle_auth_data d s state line w)
  handle_line s none line w = elim (parse d.parse_ip line) [
    | ok cmd ↦ handle_command s cmd w
    | err resp ↦ (response resp, s, w)
  ]

-- What a round of the loop comes to: another round, a return, an error of a write or read, or a
-- panic.
pub data Round (A W : Type 0) : Type 0 where
  again : Session A → W → Round A W
  returned : SessionOutcome → Session A → W → Round A W
  io_error died : Session A → W → Round A W

module _ {A W : Type 0} (d : SessionDeps A W) where
  -- `self.write_response(..).await?`, then the next round.
  abbrev pub answer : Session A → SmtpResponse → W → Round A W
  answer s r w = let (sent, s') = write_response s r in if sent then again s' w else io_error s' w

  -- `let _ = self.write_response(..).await;`, then the end.
  abbrev pub part : Session A → SmtpResponse → W → Round A W
  part s r w = let (sent, s') = write_response s r in returned closed s' w

  abbrev pub after_command : CommandResult × Session A × W → Round A W
  after_command (response r, s, w) = answer s r w
  after_command (panicked, s, w) = died s w
  after_command (upgrade, s, w) =
      let (sent, s') = write_response s ready_starttls in
      if sent then returned Types.start_tls s' w else io_error s' w

  -- A line has come: it is counted, and handled below the limit.
  unfoldable pub count_line : Session A → List ℕ → W → Round A W
  count_line s line w =
      let s' = record s { command_count = s.command_count + 1 } in
      if ltb s.config.max_commands_per_session s'.command_count
      then part s' service_unavailable w
      else after_command (handle_line d s' s'.auth_state line w)

  -- The `match` on what `read_line` returned.
  unfoldable pub after_line : Session A → Result ReadError (Option (List ℕ)) → W → Round A W
  after_line s (ok (some line)) w = count_line s line w
  after_line s (ok none) w = returned closed s w
  after_line s (err Reader.timeout) w = part s timeout w
  after_line s (err line_too_long) w = answer s line_too_long_reply w
  after_line s (err io) w = io_error s w

  abbrev pub line_reading : Session A → Reading (Option (List ℕ))
  line_reading s = read_line s.config.max_line_length s.read_buf s.pending

  -- The signal of a graceful shutdown, as this round sees it.
  abbrev pub next_signal : List Bool → Bool × List Bool
  next_signal [] = (false, [])
  next_signal (on ∷ signals) = (on, signals)

  unfoldable pub round : Session A → W → Round A W
  round s w =
      if is_done s.state
      then returned closed s w
      else (let (stop, signals) = next_signal s.shutdown in
          let s' = record s { shutdown = signals } in
          if stop
          then part s' service_unavailable w
          else after_line (with_input s' (line_reading s')) (line_reading s').result w)

  -- The loop, on fuel; `none` is a loop that has used its fuel up.
  unfoldable pub command_loop : ℕ → Session A → W → Option (Round A W)
  command_loop zero s w = none
  command_loop (suc fuel) s w = elim (round s w) [
    | again s' w' ↦ command_loop fuel s' w'
    | returned outcome s' w' ↦ some (returned outcome s' w')
    | io_error s' w' ↦ some (io_error s' w')
    | died s' w' ↦ some (died s' w')
  ]

  unfoldable pub run : ℕ → Session A → W → Option (Round A W)
  run fuel s w =
      let (sent, s') = write_response s (greeting s.config.hostname) in
      if sent then command_loop fuel (record s' { state = connected }) w else some (io_error s' w)

  unfoldable pub run_after_starttls : ℕ → Session A → W → Option (Round A W)
  run_after_starttls fuel s w = command_loop fuel s w
