-- ===== src/Server/Session/Rules.antt =====
-- A rule for the command loop of session.rs: what holds of the session and of the world and is kept
-- by the handling of a line holds whenever the loop ends.
use sentio.Common.{
  ℕ, zero, suc, ◌+◌, Bool, true, false, if◌then◌else◌, List, Option, none, some, ◌≡◌, refl, subst,
  Result, ok, err, ltb, some-inj,
}
use sentio.Server.Response.{
  SmtpResponse, greeting, service_unavailable, timeout, line_too_long_reply,
}
use sentio.Server.Reader
use sentio.Server.Reader.{ReadEvent, ReadError, io, line_too_long}
use sentio.Server.Session.Types.{
  CommandResult, response, upgrade, panicked, SessionState, connected, closed, Session, SessionDeps,
  write_response, is_done,
}
use sentio.Server.Session.Types
use sentio.Server.Session.Messages.{with_input}
use sentio.Server.Session.Loop.{
  Round, again, returned, io_error, died, handle_line, answer, part, after_command, count_line,
  after_line, line_reading, next_signal, round, command_loop, run,
}

module _ {A W : Type 0} where
  -- The session and the world that a round leaves behind.
  abbrev pub session_of : Round A W → Session A
  session_of (again s w) = s
  session_of (returned _ s w) = s
  session_of (io_error s w) = s
  session_of (died s w) = s

  abbrev pub world_of : Round A W → W
  world_of (again s w) = w
  world_of (returned _ s w) = w
  world_of (io_error s w) = w
  world_of (died s w) = w

module _ {A W : Type 0} (d : SessionDeps A W) (P : Session A → W → Type 0) where
  -- Input, output and the count of the lines do not matter, and each line keeps it.
  pub record IsKept : Type 0 where
    pub moved :
        (s : Session A) (w : W) (count : ℕ) (buf : List ℕ) (ev : List ReadEvent)
        (signals writes : List Bool) (written : List SmtpResponse)
        → P s w
        → P
            (record s {
              command_count = count;
              read_buf = buf;
              pending = ev;
              shutdown = signals;
              writes = writes;
              written = written;
            })
            w
    pub line :
        (s : Session A) (st : Option A) (bytes : List ℕ) (w : W)
        → P s w
        → s.auth_state ≡ st
        → P (handle_line d s st bytes w).1 (handle_line d s st bytes w).2

  abbrev Holds : Round A W → Type 0
  Holds r = P (session_of r) (world_of r)

  if-Holds : (b : Bool) (x y : Round A W) → Holds x → Holds y → Holds (if b then x else y)
  if-Holds true x y h k = h
  if-Holds false x y h k = k

  module _ (k : IsKept) where
    write_response-Holds :
        (s : Session A) (r : SmtpResponse) (w : W) → P s w → P (write_response s r).1 w
    unfolding write_response
    write_response-Holds s r w h = k.moved s w s.command_count s.read_buf s.pending s.shutdown _ _ h

    answer-Holds : (s : Session A) (r : SmtpResponse) (w : W) → P s w → Holds (answer d s r w)
    answer-Holds s r w h =
        let h' = write_response-Holds s r w h in
        if-Holds (write_response s r).0 (again (write_response s r).1 w)
          (io_error (write_response s r).1 w) h' h'

    after_command-Holds :
        (r : CommandResult) (s : Session A) (w : W) → P s w → Holds (after_command d (r, s, w))
    after_command-Holds (response r) s w h = answer-Holds s r w h
    after_command-Holds panicked s w h = h
    after_command-Holds upgrade s w h =
        let h' = write_response-Holds s _ w h in
        if-Holds _ (returned Types.start_tls (write_response s _).1 w)
          (io_error (write_response s _).1 w) h' h'

    count_line-Holds :
        (s : Session A) (bytes : List ℕ) (w : W) → P s w → Holds (count_line d s bytes w)
    unfolding count_line
    count_line-Holds s bytes w h =
        let s' = record s { command_count = s.command_count + 1 } in
        let h' =
          k.moved s w (s.command_count + 1) s.read_buf s.pending s.shutdown s.writes s.written h in
        let r = handle_line d s' s'.auth_state bytes w in
        if-Holds (ltb s.config.max_commands_per_session s'.command_count)
          (part d s' service_unavailable w) (after_command d r)
          (write_response-Holds s' service_unavailable w h')
          (after_command-Holds r.0 r.1 r.2 (k.line s' s'.auth_state bytes w h' refl))

    after_line-Holds :
        (s : Session A) (r : Result ReadError (Option (List ℕ))) (w : W)
        → P s w
        → Holds (after_line d s r w)
    unfolding after_line
    after_line-Holds s (ok (some bytes)) w h = count_line-Holds s bytes w h
    after_line-Holds s (ok none) w h = h
    after_line-Holds s (err Reader.timeout) w h = write_response-Holds s timeout w h
    after_line-Holds s (err line_too_long) w h = answer-Holds s line_too_long_reply w h
    after_line-Holds s (err io) w h = h

    pub round-Holds : (s : Session A) (w : W) → P s w → Holds (round d s w)
    unfolding round
    round-Holds s w h =
        let (stop, signals) = next_signal d s.shutdown in
        let s' = record s { shutdown = signals } in
        let read = line_reading d s' in
        let stay = λ (buf : List ℕ) (ev : List ReadEvent).
          k.moved s w s.command_count buf ev signals s.writes s.written h in
        if-Holds (is_done s.state) (returned closed s w) _ h (
          if-Holds stop (part d s' service_unavailable w)
            (after_line d (with_input s' read) read.result w)
            (write_response-Holds s' service_unavailable w (stay s.read_buf s.pending))
            (after_line-Holds (with_input s' read) read.result w (stay read.read_buf read.pending)))

    loop-Holds :
        (fuel : ℕ) (x r : Round A W)
        → ((s : Session A) (w : W) (r' : Round A W)
            → P s w
            → command_loop d fuel s w ≡ some r'
            → Holds r')
        → Holds x
        → elim x as (λ _. Option (Round A W)) [
          | again s' w' ↦ command_loop d fuel s' w'
          | returned outcome s' w' ↦ some (returned outcome s' w')
          | io_error s' w' ↦ some (io_error s' w')
          | died s' w' ↦ some (died s' w')
        ]
          ≡ some r
        → Holds r
    loop-Holds fuel (again s w) r ih h e = ih s w r h e
    loop-Holds fuel (returned outcome s w) r ih h e = subst Holds (some-inj e) h
    loop-Holds fuel (io_error s w) r ih h e = subst Holds (some-inj e) h
    loop-Holds fuel (died s w) r ih h e = subst Holds (some-inj e) h

    pub command_loop-Holds :
        (fuel : ℕ) (s : Session A) (w : W) (r : Round A W)
        → P s w
        → command_loop d fuel s w ≡ some r
        → Holds r
    unfolding command_loop
    command_loop-Holds zero s w r h e = cc
    command_loop-Holds (suc fuel) s w r h e =
        loop-Holds fuel (round d s w) r (command_loop-Holds fuel) (round-Holds s w h) e

    started-Holds :
        (fuel : ℕ) (sent : Bool) (s s' : Session A) (w : W) (r : Round A W)
        → P s w
        → P s' w
        → (if sent then command_loop d fuel s' w else some (io_error s w)) ≡ some r
        → Holds r
    started-Holds fuel true s s' w r h h' e = command_loop-Holds fuel s' w r h' e
    started-Holds fuel false s s' w r h h' e = subst Holds (some-inj e) h

    -- A run begins with the greeting, in the state `connected`.
    pub run-Holds :
        (fuel : ℕ) (s : Session A) (w : W) (r : Round A W)
        → P s w
        → P (record s { state = connected }) w
        → run d fuel s w ≡ some r
        → Holds r
    unfolding run write_response
    run-Holds fuel s w r h h' e =
        let p = write_response s (greeting s.config.hostname) in
        started-Holds fuel p.0 p.1 (record p.1 { state = connected }) w r
          (write_response-Holds s _ w h)
          (k.moved (record s { state = connected }) w s.command_count s.read_buf s.pending
            s.shutdown _ _ h')
          e
