-- ===== src/Server/Session/Termination.antt =====
-- The command loop of session.rs comes to an end.
use sentio.Common.{
  ℕ, zero, suc, ◌+◌, ◌-◌, ◌≤◌, ◌<◌, Bool, true, List, ◌*◌, length, Option, none, some, ◌≡◌, refl,
  arith, is_some, Result, ok, err,
}
use sentio.Server.Commands.Types.{IpAddr}
use sentio.Server.Response.{SmtpResponse, greeting}
use sentio.Server.Reader
use sentio.Server.Reader.{ReadEvent, ReadError, io, line_too_long}
use sentio.Server.Reader.Progress.{input, Took, read_line-Took}
use sentio.Server.Session.Types.{
  Connection, SessionConfig, ListenerMode, new_session, connected, CommandResult, response, upgrade,
  panicked, Session, SessionDeps, write_response,
}
use sentio.Server.Session.Messages.{with_input}
use sentio.Server.Session.Loop.{
  Round, again, returned, io_error, died, handle_line, answer, after_command, count_line,
  after_line, line_reading, next_signal, round, command_loop, run,
}
use sentio.Server.Session.Frame.{handle_line-Frame}

-- A bound on the rounds that a session still has: two for each read to come, one for input that is
-- already in the buffer, and one for each command that is left of its quota.
abbrev pub rounds_left : {A : Type 0} → Session A → ℕ
rounds_left s = input s.read_buf s.pending + (s.config.max_commands_per_session - s.command_count)

-- A further round starts from fewer.
abbrev Falls : {A W : Type 0} → ℕ → Round A W → Type 0
Falls n (again s w) = rounds_left s < n
Falls n _ = Unit

module _ {A W : Type 0} (d : SessionDeps A W) where
  answer-Falls :
      (n : ℕ) (s : Session A) (r : SmtpResponse) (w : W)
      → rounds_left s < n
      → Falls n (answer d s r w)
  unfolding write_response
  answer-Falls n s r w h = ground arith

  after_command-Falls :
      (n : ℕ) (r : CommandResult) (s : Session A) (w : W)
      → rounds_left s < n
      → Falls n (after_command d (r, s, w))
  after_command-Falls n (response r) s w h = answer-Falls n s r w h
  after_command-Falls n panicked s w h = tt
  after_command-Falls n upgrade s w h = ground arith

  count_line-Falls :
      (s : Session A) (line : List ℕ) (w : W) (all : ℕ)
      → input s.read_buf s.pending ≤ all
      → Falls (all + (s.config.max_commands_per_session - s.command_count)) (count_line d s line w)
  unfolding count_line
  count_line-Falls s line w all h =
      let n = all + (s.config.max_commands_per_session - s.command_count) in
      let s' = record s { command_count = s.command_count + 1 } in
      let r = handle_line d s' s'.auth_state line w in
      ground (arith, after_command-Falls n r.0 r.1 r.2, handle_line-Frame d s' s'.auth_state line w)

  after_line-Falls :
      (s : Session A) (r : Result ReadError (Option (List ℕ))) (w : W) (all : ℕ)
      → Took r (input s.read_buf s.pending) all
      → Falls (all + (s.config.max_commands_per_session - s.command_count)) (after_line d s r w)
  unfolding after_line
  after_line-Falls s (ok (some line)) w all h = count_line-Falls s line w all h
  after_line-Falls s (ok none) w all h = tt
  after_line-Falls s (err Reader.timeout) w all h = tt
  after_line-Falls s (err line_too_long) w all h = answer-Falls _ s _ w (ground arith)
  after_line-Falls s (err io) w all h = tt

  round-Falls : (s : Session A) (w : W) → Falls (rounds_left s) (round d s w)
  unfolding round
  round-Falls s w =
      let s' = record s { shutdown = (next_signal d s.shutdown).1 } in
      let r = line_reading d s' in
      ground (
        arith,
        after_line-Falls (with_input s' r) r.result w (input s.read_buf s.pending)
            (read_line-Took s.config.max_line_length s.read_buf s.pending),
      )

  loop_ends :
      (fuel : ℕ) (n : ℕ) (x : Round A W)
      → ((s : Session A) (w : W) → rounds_left s < n → is_some (command_loop d fuel s w) ≡ true)
      → Falls n x
      → is_some (elim x as (λ _. Option (Round A W)) [
        | again s' w' ↦ command_loop d fuel s' w'
        | returned outcome s' w' ↦ some (returned outcome s' w')
        | io_error s' w' ↦ some (io_error s' w')
        | died s' w' ↦ some (died s' w')
      ])
        ≡ true
  loop_ends fuel n (again s w) ih f = ih s w f
  loop_ends fuel n (returned outcome s w) ih f = refl
  loop_ends fuel n (io_error s w) ih f = refl
  loop_ends fuel n (died s w) ih f = refl

  -- Fuel above `rounds_left` is enough.
  pub command_loop_ends :
      (fuel : ℕ) (s : Session A) (w : W)
      → rounds_left s < fuel
      → is_some (command_loop d fuel s w) ≡ true
  unfolding command_loop
  command_loop_ends zero s w h = ground arith
  command_loop_ends (suc fuel) s w h =
      loop_ends fuel (rounds_left s) (round d s w)
        (λ s' w' k. command_loop_ends fuel s' w' (omega (arith, h, k))) (round-Falls s w)

  -- A session on a new connection ends, whatever the client sends and the callbacks do, after at
  -- most two rounds for each read of the connection and one for each command of the quota.
  pub run_ends :
      (fuel : ℕ) (stream : Connection) (config : SessionConfig) (peer : IpAddr)
      (mode : ListenerMode) (tls_active : Bool) (w : W)
      → 2 * length stream.pending + config.max_commands_per_session < fuel
      → is_some (run d fuel (new_session stream config peer mode tls_active) w) ≡ true
  unfolding run write_response new_session
  run_ends fuel stream config peer mode tls_active w h =
      let s = new_session {A = A} stream config peer mode tls_active in
      let p = write_response s (greeting config.hostname) in
      ground (arith, command_loop_ends fuel (record p.1 { state = connected }) w)
