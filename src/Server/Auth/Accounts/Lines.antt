-- ===== src/Server/Auth/Accounts/Lines.antt =====
-- The lines that a session of crates/sentio-smtp-server/src/session.rs has handled, and the messages
-- of the exchanges of crates/sentio-smtp-server/src/auth.rs in them.
use sentio.Common.{ℕ, Bool, List, [], ◌∷◌, Option, some, ◌≡◌, subst, ok}
use sentio.Common.Text.{Text, trim}
use sentio.Common.Utf8.{from_utf8}
use sentio.Server.Reader.{ReadEvent}
use sentio.Server.Response.{SmtpResponse}
use sentio.Server.Commands.Types.{IpAddr, auth}
use sentio.Server.Commands.Line.{parse}
use sentio.Server.Session.Types.{Session, SessionDeps, connected}
use sentio.Server.Session.Loop.{Round, handle_line, run}
use sentio.Server.Session.Rules.{IsKept, session_of, world_of, run-Holds}
use sentio.Server.Auth.Exchange.{mechanism_and_response}

-- A line says a message as the initial response of AUTH, or as the answer to a challenge.
pub data Says (parse_ip : Text → Option IpAddr) (line : List ℕ) : Text → Type 0 where
  initial :
      (args message : Text)
      → parse parse_ip line ≡ ok (auth args)
      → (mechanism_and_response args).1 ≡ some message
      → Says parse_ip line message
  answered : (text : Text) → from_utf8 line ≡ some text → Says parse_ip line (trim text)

-- One of the lines says the message.
pub data Said (parse_ip : Text → Option IpAddr) : List (List ℕ) → Text → Type 0 where
  now :
      (line : List ℕ) (lines : List (List ℕ)) (message : Text)
      → Says parse_ip line message
      → Said parse_ip (line ∷ lines) message
  earlier :
      (line : List ℕ) (lines : List (List ℕ)) (message : Text)
      → Said parse_ip lines message
      → Said parse_ip (line ∷ lines) message

module _ {A W : Type 0} (d : SessionDeps A W) (start : Session A) where
  -- The session has come from its start by the handling of the lines, the latest of them first;
  -- input, output and the count of the lines are free between them.
  pub data Handled : List (List ℕ) → Session A → W → Type 0 where
    opened : (w : W) → Handled [] start w
    moved :
        (lines : List (List ℕ)) (s : Session A) (w : W) (count : ℕ) (buf : List ℕ)
        (ev : List ReadEvent) (signals writes : List Bool) (written : List SmtpResponse)
        → Handled lines s w
        → Handled lines
            (record s {
              command_count = count;
              read_buf = buf;
              pending = ev;
              shutdown = signals;
              writes = writes;
              written = written;
            })
            w
    took :
        (lines : List (List ℕ)) (s : Session A) (line : List ℕ) (w : W)
        → Handled lines s w
        → Handled
            (line ∷ lines)
            (handle_line d s s.auth_state line w).1
            (handle_line d s s.auth_state line w).2

  -- By some list of lines.
  abbrev pub IsHandled : Session A → W → Type 0
  IsHandled s w = (lines : List (List ℕ)) × Handled lines s w

  IsHandled-IsKept : IsKept d IsHandled
  IsHandled-IsKept = record {
    moved = λ s w count buf ev signals writes written h.
        (h.0, moved h.0 s w count buf ev signals writes written h.1);
    line = λ s st bytes w h e. (
      bytes ∷ h.0,
      subst (λ a. Handled (bytes ∷ h.0) (handle_line d s a bytes w).1 (handle_line d s a bytes w).2)
          e (took h.0 s bytes w h.1),
    );
  }

  pub run-IsHandled :
      (fuel : ℕ) (w : W) (r : Round A W)
      → Handled [] (record start { state = connected }) w
      → run d fuel start w ≡ some r
      → IsHandled (session_of r) (world_of r)
  run-IsHandled fuel w r h e =
      run-Holds d IsHandled IsHandled-IsKept fuel start w r ([], opened w) ([], h) e
