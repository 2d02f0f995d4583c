-- ===== src/Client/Reply/Ends.antt =====
-- `read_response` of crates/sentio-smtp-client/src/connection.rs ends, whatever the server sends.
use sentio.Common.{
  ℕ, zero, suc, ◌+◌, ◌<◌, List, [], ◌∷◌, ◌++◌, Option, some, ◌≡◌, refl, arith, true, Option-cases,
  inl, inr, length, length-append, is_some, Result, ok, err,
}
use sentio.Common.Text.{Text}
use sentio.Server.Reader.{split_line}
use sentio.Client.Wire.{
  ReadOutcome, received, read_failed, read_late, LineReading, line_or, read_raw_line, input, Fault,
}
use sentio.Core.Error.{SentioError}
use sentio.Client.Reply.{ResponseReading, ReplyLine, enhanced_of, after_line, after_raw, read_lines}

split_line_shorter :
    (buf : List ℕ) {line rest : List ℕ}
    → split_line buf ≡ some (line, rest)
    → length rest < length buf
unfolding split_line
split_line_shorter [] e = cc
split_line_shorter (c ∷ buf) e = elim (Option-cases (split_line buf)) [
  | inl n ↦ ground (arith, n, e)
  | inr (p, s) ↦ ground (arith, s, e, split_line_shorter buf s)
]

input_mono :
    (buf buf' : List ℕ) (ev : List ReadOutcome)
    → length buf' < length buf
    → input buf' ev < input buf ev
unfolding input
input_mono buf buf' [] h = h
input_mono buf buf' (received bytes ∷ ev) h = omega (arith, input_mono buf buf' ev h)
input_mono buf buf' (read_failed e ∷ ev) h = input_mono buf buf' ev h
input_mono buf buf' (read_late ∷ ev) h = input_mono buf buf' ev h

input-append :
    (buf bytes : List ℕ) (ev : List ReadOutcome)
    → input (buf ++ bytes) ev ≡ length bytes + input buf ev
unfolding input
input-append buf bytes [] = omega (arith, length-append {0} buf bytes)
input-append buf bytes (received more ∷ ev) = omega (arith, input-append buf bytes ev)
input-append buf bytes (read_failed e ∷ ev) = input-append buf bytes ev
input-append buf bytes (read_late ∷ ev) = input-append buf bytes ev

-- A line that is read has been taken from the input.
abbrev Shrinks : ℕ → LineReading → Type 0
Shrinks n r = (line : List ℕ) → r.result ≡ ok line → input r.rest r.pending < n

line_or-Shrinks :
    (n : ℕ) (buf : List ℕ) (ev : List ReadOutcome) (next : LineReading)
    → input buf ev ≡ n
    → Shrinks n next
    → Shrinks n (line_or buf ev next)
unfolding line_or
line_or-Shrinks n buf ev next e h line r = elim (Option-cases (split_line buf)) [
  | inl nn ↦ ground (arith, nn, h line)
  | inr (p, s) ↦ ground (arith, s, input_mono buf p.1 ev (split_line_shorter buf s))
]

read_raw_line-Shrinks :
    (buf : List ℕ) (ev : List ReadOutcome) → Shrinks (input buf ev) (read_raw_line buf ev)
unfolding read_raw_line input
read_raw_line-Shrinks buf [] = line_or-Shrinks _ buf [] _ refl (λ line. cc)
read_raw_line-Shrinks buf (read_late ∷ ev) =
    line_or-Shrinks _ buf (read_late ∷ ev) _ refl (λ line. cc)
read_raw_line-Shrinks buf (read_failed e ∷ ev) =
    line_or-Shrinks _ buf (read_failed e ∷ ev) _ refl (λ line. cc)
read_raw_line-Shrinks buf (received [] ∷ ev) =
    line_or-Shrinks _ buf (received [] ∷ ev) _ refl (λ line. cc)
read_raw_line-Shrinks buf (received (b ∷ bytes) ∷ ev) =
    line_or-Shrinks _ buf (received (b ∷ bytes) ∷ ev) _ refl (λ line r.
      omega (
        arith,
        read_raw_line-Shrinks (buf ++ b ∷ bytes) ev line r,
        input-append buf (b ∷ bytes) ev,
      ))

module _ (lossy : List ℕ → Text) where
  after_line_total :
      (lines : List Text) (enhanced : Option Text)
      (again : List Text → Option Text → Option ResponseReading) (line : Result Fault ReplyLine)
      (rest : List ℕ) (ev : List ReadOutcome)
      → ((lines' : List Text) (enhanced' : Option Text) → is_some (again lines' enhanced') ≡ true)
      → is_some (after_line lossy lines enhanced again line rest ev) ≡ true
  unfolding after_line
  after_line_total lines enhanced again (err e) rest ev h = refl
  after_line_total lines enhanced again (ok line) rest ev h =
      ground (arith, h (lines ++ line.text ∷ []) (enhanced_of enhanced line.text))

  after_raw_total :
      (lines : List Text) (enhanced : Option Text)
      (again : List Text → Option Text → Option ResponseReading) (raw : Result SentioError (List ℕ))
      (rest : List ℕ) (ev : List ReadOutcome)
      → ((line : List ℕ)
          → raw ≡ ok line
          → (lines' : List Text) (enhanced' : Option Text)
          → is_some (again lines' enhanced') ≡ true)
      → is_some (after_raw lossy lines enhanced again raw rest ev) ≡ true
  unfolding after_raw
  after_raw_total lines enhanced again (err e) rest ev h = refl
  after_raw_total lines enhanced again (ok line) rest ev h =
      after_line_total lines enhanced again _ rest ev (h line refl)

  -- Fuel above the bytes that are there or will come is enough for a reply to be read or refused.
  pub read_lines_ends :
      (fuel : ℕ) (lines : List Text) (enhanced : Option Text) (buf : List ℕ) (ev : List ReadOutcome)
      → input buf ev < fuel
      → is_some (read_lines lossy fuel lines enhanced buf ev) ≡ true
  unfolding read_lines
  read_lines_ends zero lines enhanced buf ev h = absurd (omega arith)
  read_lines_ends (suc fuel) lines enhanced buf ev h =
      let r = read_raw_line buf ev in
      after_raw_total lines enhanced
        (λ lines' enhanced'. read_lines lossy fuel lines' enhanced' r.rest r.pending) r.result
        r.rest r.pending
        (λ line e lines' enhanced'.
          read_lines_ends fuel lines' enhanced' r.rest r.pending
            (omega (arith, h, read_raw_line-Shrinks buf ev line e)))
