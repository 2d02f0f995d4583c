-- ===== src/Server/Reader.antt =====
-- Reading from the client: `read_line`, `read_data`, `drain_until_dot_terminator` and
-- `read_exact_bytes` of crates/sentio-smtp-server/src/session.rs.
--
-- The stream is the list of the outcomes of its coming `read` calls, so each loop recurs on that
-- list. The timeout of a call shows as `timed_out`; a list that has run out stands for a silent
-- peer, whose read times out too. The size of the buffer that a call passes is left to the list:
-- a run of the program has chunks of 4096 or 8192 bytes at most.
pub mod Rounds
pub mod Truncation
pub mod Exact
pub mod Limits
pub mod Progress
pub mod Stream
pub mod Complete
pub mod Conservation
pub mod LongLines
mod Tests
use sentio.Common.{
  ℕ, zero, suc, ◌+◌, ◌-◌, List, [], ◌∷◌, ◌++◌, Option, none, some, Bool, true, false, take, drop,
  length, min, ltb, ◌==◌, if◌then◌else◌, Result, ok, err,
}
use sentio.Common.Text.{Text, codes, starts_with}
use sentio.Server.Validation.{dot_unstuff}

-- What one `stream.read` gives; `got []` is the end of the stream.
pub data ReadEvent : Type 0 where
  got : List ℕ → ReadEvent
  failed timed_out : ReadEvent

pub data ReadError : Type 0 where
  io timeout line_too_long : ReadError

-- A result, with the buffer and the coming reads that are left.
pub record Reading (A : Type 0) : Type 0 where
  pub result : Result ReadError A
  pub read_buf : List ℕ
  pub pending : List ReadEvent

abbrev pub reading : {A : Type 0} → Result ReadError A → List ℕ → List ReadEvent → Reading A
reading r buf ev = record { result = r; read_buf = buf; pending = ev }

-- The bytes before the first line feed, and those behind it.
unfoldable pub split_line : List ℕ → Option (List ℕ × List ℕ)
split_line [] = none
split_line (c ∷ bytes) =
    if c == b'\n'
    then some ([], bytes)
    else elim (split_line bytes) [ none ↦ none | some (line, rest) ↦ some (c ∷ line, rest) ]

-- The carriage return of CRLF is no part of the line.
unfoldable pub strip_cr : List ℕ → List ℕ
strip_cr [] = []
strip_cr (c ∷ []) = if c == b'\r' then [] else c ∷ []
strip_cr (c ∷ d ∷ line) = c ∷ strip_cr (d ∷ line)

-- One round of `read_line`: a line of the buffer, a buffer that is too long, or else `next`.
unfoldable pub line_or :
    ℕ → List ℕ → List ReadEvent → Reading (Option (List ℕ)) → Reading (Option (List ℕ))
line_or max_line_length buf pending next = elim (split_line buf) [
  | some (line, rest) ↦ reading (ok (some (strip_cr line))) rest pending
  | none ↦ if ltb max_line_length (length buf) then reading (err line_too_long) [] pending else next
]

unfoldable pub read_line : ℕ → List ℕ → List ReadEvent → Reading (Option (List ℕ))
read_line max buf [] = line_or max buf [] (reading (err timeout) buf [])
read_line max buf (failed ∷ ev) = line_or max buf (failed ∷ ev) (reading (err io) buf ev)
read_line max buf (timed_out ∷ ev) = line_or max buf (timed_out ∷ ev) (reading (err timeout) buf ev)
read_line max buf (got [] ∷ ev) = line_or max buf (got [] ∷ ev) (reading (ok none) buf ev)
read_line max buf (got (b ∷ bytes) ∷ ev) =
    line_or max buf (got (b ∷ bytes) ∷ ev) (read_line max (buf ++ b ∷ bytes) ev)

abbrev pub terminator : List ℕ
terminator = b'\r' ∷ b'\n' ∷ b'.' ∷ b'\r' ∷ b'\n' ∷ []

abbrev pub bare_dot : List ℕ
bare_dot = b'.' ∷ b'\r' ∷ b'\n' ∷ []

-- The bytes before the first terminator, and those behind it.
unfoldable pub find_terminator : List ℕ → Option (List ℕ × List ℕ)
unfolding starts_with
find_terminator [] = none
find_terminator (c ∷ bytes) =
    if starts_with terminator (c ∷ bytes)
    then some ([], drop 5 (c ∷ bytes))
    else elim (find_terminator bytes) [ none ↦ none | some (pre, rest) ↦ some (c ∷ pre, rest) ]

-- The bytes that `read_data` moves out of the buffer, all but the last four.
abbrev pub safe : List ℕ → ℕ
safe buf = length buf - 4

-- One round of the drain: the end of the message, or else `next`.
abbrev drain_or : List ℕ → List ReadEvent → (List ℕ × List ReadEvent) → List ℕ × List ReadEvent
drain_or buf ev next = elim (find_terminator buf) [
  | some _ ↦ ([], ev)
  | none ↦ if starts_with bare_dot buf then ([], ev) else next
]

unfoldable pub drain_until_dot_terminator : List ℕ → List ReadEvent → List ℕ × List ReadEvent
drain_until_dot_terminator buf [] = drain_or buf [] (drop (safe buf) buf, [])
drain_until_dot_terminator buf (failed ∷ ev) = drain_or buf (failed ∷ ev) (drop (safe buf) buf, ev)
drain_until_dot_terminator buf (timed_out ∷ ev) =
    drain_or buf (timed_out ∷ ev) (drop (safe buf) buf, ev)
drain_until_dot_terminator buf (got [] ∷ ev) = drain_or buf (got [] ∷ ev) (drop (safe buf) buf, ev)
drain_until_dot_terminator buf (got (b ∷ bytes) ∷ ev) =
    drain_or buf (got (b ∷ bytes) ∷ ev)
      (drain_until_dot_terminator (drop (safe buf) buf ++ b ∷ bytes) ev)

-- After the loop: the final size check and the unstuffing.
unfoldable pub finish_data : ℕ → List ℕ → Result ReadError (List ℕ)
finish_data max_message_size body =
    if ltb max_message_size (length body) then err line_too_long else ok (dot_unstuff body)

abbrev too_large : List ℕ → List ReadEvent → Reading (List ℕ)
too_large buf ev =
    let (buf', ev') = drain_until_dot_terminator buf ev in reading (err line_too_long) buf' ev'

-- One round of `read_data`, up to the read: the end of the message, a body that is too large, or
-- else `next`.
unfoldable pub data_or :
    ℕ → (body buf : List ℕ) → List ReadEvent → Reading (List ℕ) → Reading (List ℕ)
data_or max body buf ev next = elim (find_terminator buf) [
  | some (pre, rest) ↦ reading (finish_data max (body ++ (pre ++ (b'\r' ∷ b'\n' ∷ [])))) rest ev
  | none ↦
      if starts_with bare_dot buf
      then reading (finish_data max body) (drop 3 buf) ev
      else if ltb max (length (body ++ take (safe buf) buf))
      then too_large (drop (safe buf) buf) ev
      else next
]

-- The loop of `read_data`, with its `body`.
unfoldable pub read_data_from : ℕ → (body buf : List ℕ) → List ReadEvent → Reading (List ℕ)
read_data_from max body buf [] =
    data_or max body buf [] (reading (err timeout) (drop (safe buf) buf) [])
read_data_from max body buf (failed ∷ ev) =
    data_or max body buf (failed ∷ ev) (reading (err io) (drop (safe buf) buf) ev)
read_data_from max body buf (timed_out ∷ ev) =
    data_or max body buf (timed_out ∷ ev) (reading (err timeout) (drop (safe buf) buf) ev)
read_data_from max body buf (got [] ∷ ev) =
    data_or max body buf (got [] ∷ ev) (reading (err io) (drop (safe buf) buf) ev)
read_data_from max body buf (got (b ∷ bytes) ∷ ev) =
    data_or max body buf (got (b ∷ bytes) ∷ ev)
      (read_data_from max (body ++ take (safe buf) buf) (drop (safe buf) buf ++ b ∷ bytes) ev)

unfoldable pub read_data : ℕ → List ℕ → List ReadEvent → Reading (List ℕ)
read_data max buf ev = read_data_from max [] buf ev

-- The loop of `read_exact_bytes` over the reads: `remaining` bytes are still to come. What a read
-- gives beyond them goes back to the buffer.
unfoldable pub read_rest : (remaining : ℕ) (result buf : List ℕ) → List ReadEvent → Reading (List ℕ)
read_rest zero result buf ev = reading (ok result) buf ev
read_rest (suc n) result buf [] = reading (err timeout) buf []
read_rest (suc n) result buf (failed ∷ ev) = reading (err io) buf ev
read_rest (suc n) result buf (timed_out ∷ ev) = reading (err timeout) buf ev
read_rest (suc n) result buf (got [] ∷ ev) = reading (err io) buf ev
read_rest (suc n) result buf (got (b ∷ bytes) ∷ ev) =
    read_rest (suc n - length (b ∷ bytes)) (result ++ take (suc n) (b ∷ bytes))
      (buf ++ drop (suc n) (b ∷ bytes)) ev

unfoldable pub read_exact_bytes : ℕ → List ℕ → List ReadEvent → Reading (List ℕ)
read_exact_bytes count buf ev = read_rest (count - length buf) (take count buf) (drop count buf) ev
