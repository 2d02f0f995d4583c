-- ===== src/Client/Wire.antt =====
-- The stream of the client of crates/sentio-smtp-client/src/connection.rs: `write_all` and
-- `read_line`, with the state of a connection.
use sentio.Common.{ℕ, ◌+◌, length, List, [], ◌∷◌, ◌++◌, Option, none, some, Bool, Result, ok, err}
use sentio.Common.Text.{Text, codes}
use sentio.Common.Utf8.{from_utf8}
use sentio.Core.Error.{SentioError, smtp}
use sentio.Server.Reader.{split_line}

-- The outcome of one `read`, with the text of an error; `received []` is the end of the stream.
pub data ReadOutcome : Type 0 where
  received : List ℕ → ReadOutcome
  read_failed : (e : Text) → ReadOutcome
  read_late : ReadOutcome

-- The outcome of one `write_all` and `flush`.
pub data WriteOutcome : Type 0 where
  wrote write_late flush_late : WriteOutcome
  write_failed flush_failed : (e : Text) → WriteOutcome

pub record ServerCapabilities : Type 0 where
  pub starttls : Bool
  pub size : Option ℕ
  pub pipelining : Bool
  pub eight_bit_mime : Bool
  pub smtputf8 : Bool
  pub chunking : Bool
  pub dsn : Bool
  pub auth_mechanisms : List Text

-- The timeouts show in the outcomes. A list that has run out stands for a peer that is silent.
pub record SmtpConnection : Type 0 where
  pub read_buf : List ℕ
  pub pending : List ReadOutcome
  pub writes : List WriteOutcome
  pub sent : List ℕ
  pub hostname : Text
  pub capabilities : Option ServerCapabilities

-- An error value, or a panic.
pub data Fault : Type 0 where
  error : SentioError → Fault
  panicked : Fault

abbrev pub Io : Type 0 → Type 0
Io A = SmtpConnection → Result Fault A × SmtpConnection

infixl 5 ◌>>=◌ ◌>>◌
abbrev pub ◌>>=◌ : {A B : Type 0} → Io A → (A → Io B) → Io B
◌>>=◌ m f c = let (r, c') = m c in elim r [ ok a ↦ f a c' | err e ↦ (err e, c') ]

abbrev pub ◌>>◌ : {B : Type 0} → Io (Unit {0}) → Io B → Io B
m >> k = m >>= λ _. k

abbrev pub return : {A : Type 0} → A → Io A
return a c = (ok a, c)

abbrev pub fail : {A : Type 0} → Fault → Io A
fail e c = (err e, c)

unfoldable pub smtp_err : Text → SentioError
smtp_err msg = smtp (record { code = 0; enhanced = none; message = msg })

abbrev pub next_write : List WriteOutcome → WriteOutcome × List WriteOutcome
next_write [] = (write_late, [])
next_write (w ∷ writes) = (w, writes)

unfoldable pub after_write : WriteOutcome → Result Fault (Unit {0})
after_write wrote = ok tt
after_write write_late = err (error (smtp_err (codes "write timeout")))
after_write (write_failed e) = err (error (smtp_err (codes "write error: " ++ e)))
after_write flush_late = err (error (smtp_err (codes "flush timeout")))
after_write (flush_failed e) = err (error (smtp_err (codes "flush error: " ++ e)))

unfoldable pub write_all : List ℕ → Io (Unit {0})
write_all bytes c =
    let (w, writes) = next_write c.writes in
    (after_write w, record c { writes = writes; sent = c.sent ++ bytes })

-- A line with its line feed, with the buffer and the coming reads that are left.
pub record LineReading : Type 0 where
  pub result : Result SentioError (List ℕ)
  pub rest : List ℕ
  pub pending : List ReadOutcome

abbrev pub line_reading : Result SentioError (List ℕ) → List ℕ → List ReadOutcome → LineReading
line_reading r rest pending = record { result = r; rest = rest; pending = pending }

-- One round: a line of the buffer, or else `next`.
unfoldable pub line_or : List ℕ → List ReadOutcome → LineReading → LineReading
line_or buf pending next = elim (split_line buf) [
  | some (line, rest) ↦ line_reading (ok (line ++ b'\n' ∷ [])) rest pending
  | none ↦ next
]

unfoldable pub read_raw_line : List ℕ → List ReadOutcome → LineReading
read_raw_line buf [] = line_or buf [] (line_reading (err (smtp_err (codes "read timeout"))) buf [])
read_raw_line buf (read_late ∷ ev) =
    line_or buf (read_late ∷ ev) (line_reading (err (smtp_err (codes "read timeout"))) buf ev)
read_raw_line buf (read_failed e ∷ ev) =
    line_or buf (read_failed e ∷ ev)
      (line_reading (err (smtp_err (codes "read error: " ++ e))) buf ev)
read_raw_line buf (received [] ∷ ev) =
    line_or buf (received [] ∷ ev)
      (line_reading (err (smtp_err (codes "connection closed by remote"))) buf ev)
read_raw_line buf (received (b ∷ bytes) ∷ ev) =
    line_or buf (received (b ∷ bytes) ∷ ev) (read_raw_line (buf ++ b ∷ bytes) ev)

-- `String::from_utf8`, or `from_utf8_lossy`, which is given.
unfoldable pub decode_line : (lossy : List ℕ → Text) → List ℕ → Text
decode_line lossy bytes = elim (from_utf8 bytes) [ some s ↦ s | none ↦ lossy bytes ]

-- The bytes that are there or will come.
unfoldable pub input : List ℕ → List ReadOutcome → ℕ
input buf [] = length buf
input buf (received bytes ∷ ev) = length bytes + input buf ev
input buf (read_failed e ∷ ev) = input buf ev
input buf (read_late ∷ ev) = input buf ev
