-- ===== src/Client/Reply.antt =====
-- The replies of a remote server as crates/sentio-smtp-client/src/connection.rs reads them:
-- `read_response`, and the capabilities of EHLO.
pub mod Ends
pub mod Lines
use sentio.Common.{
  ℕ, zero, suc, ◌+◌, ◌-◌, ◌^◌, List, [], ◌∷◌, ◌++◌, Option, none, some, Bool, true, false, not,
  ◌&&◌, length, ltb, leb, ◌==◌, is_some, if◌then◌else◌, Result, ok, err,
}
use sentio.Common.Text.{
  Text, codes, same, is_empty, split_once, len, utf8_width, parse_unsigned, split_whitespace,
}
use sentio.Core.Error.{SentioError}
use sentio.Client.Wire.{
  ReadOutcome, SmtpConnection, Io, input, Fault, error, panicked, smtp_err, read_raw_line,
  decode_line,
}

pub record SmtpResponse : Type 0 where
  pub code : ℕ
  pub enhanced : Option Text
  pub lines : List Text

unfoldable pub is_success : SmtpResponse → Bool
is_success r = leb 200 r.code && ltb r.code 300

unfoldable pub is_transient : SmtpResponse → Bool
is_transient r = leb 400 r.code && ltb r.code 500

unfoldable pub is_permanent : SmtpResponse → Bool
is_permanent r = leb 500 r.code && ltb r.code 600

-- `join("\n")`.
unfoldable pub join_lines : List Text → Text
join_lines [] = []
join_lines (line ∷ []) = line
join_lines (line ∷ next ∷ lines) = line ++ (b'\n' ∷ join_lines (next ∷ lines))

unfoldable pub full_text : SmtpResponse → Text
full_text r = join_lines r.lines

-- `trim_end_matches(char)`.
unfoldable pub trim_end_matches : ℕ → Text → Text
trim_end_matches d [] = []
trim_end_matches d (c ∷ s) = elim (trim_end_matches d s) [
  | [] ↦ if c == d then [] else c ∷ []
  | x ∷ rest ↦ c ∷ x ∷ rest
]

-- The two ends of a slice at a byte; `none` inside a character or behind the end, where Rust panics.
unfoldable pub slice_at : ℕ → Text → Option (Text × Text)
slice_at zero s = some ([], s)
slice_at (suc n) [] = none
slice_at (suc n) (c ∷ s) =
    let rest = slice_at (suc n - utf8_width c) s in
    if leb (utf8_width c) (suc n)
    then elim rest [ none ↦ none | some (a, b) ↦ some (c ∷ a, b) ]
    else none

-- The second character.
abbrev pub second_is : ℕ → Text → Bool
second_is d [] = false
second_is d (c ∷ []) = false
second_is d (c ∷ e ∷ s) = e == d

-- The first piece of `splitn(2, ' ')`.
unfoldable pub first_word : Text → Text
first_word text = elim (split_once b' ' text) [ some (word, rest) ↦ word | none ↦ text ]

unfoldable pub enhanced_of : Option Text → (text : Text) → Option Text
enhanced_of (some e) text = some e
enhanced_of none text =
    if not (is_empty text) && leb 5 (len (first_word text)) && second_is b'.' (first_word text)
    then some (first_word text)
    else none

-- A line of a reply: its code, whether another line follows, and its text.
pub record ReplyLine : Type 0 where
  pub code : ℕ
  pub more : Bool
  pub text : Text

-- Whether the byte at index 3 is a hyphen; `rest` begins at that byte.
abbrev pub begins_with_hyphen : Text → Bool
begins_with_hyphen [] = false
begins_with_hyphen (c ∷ s) = c == b'-'

-- `&line[4..]`, where there is more than the separator.
unfoldable pub text_behind : Text → Option Text
text_behind line =
    if ltb 4 (len line)
    then elim (slice_at 4 line) [ none ↦ none | some (head, text) ↦ some text ]
    else some []

unfoldable pub with_text : (code : ℕ) (rest : Text) → Option Text → Result Fault ReplyLine
with_text code rest none = err panicked
with_text code rest (some text) =
    ok (record { code = code; more = begins_with_hyphen rest; text = text })

unfoldable pub with_code : (line digits rest : Text) → Option ℕ → Result Fault ReplyLine
with_code line digits rest none = err (error (smtp_err (codes "invalid response code: " ++ line)))
with_code line digits rest (some code) = with_text code rest (text_behind line)

unfoldable pub parse_reply_line : (line : Text) → Result Fault ReplyLine
parse_reply_line line =
    if ltb (len line) 3
    then err (error (smtp_err (codes "invalid SMTP response line: " ++ line)))
    else elim (slice_at 3 line) [
      | none ↦ err panicked
      | some (digits, rest) ↦ with_code line digits rest (parse_unsigned (2 ^ 16) digits)
    ]

-- What the loop of `read_response` has so far, and what it returns.
pub record ResponseReading : Type 0 where
  pub result : Result Fault SmtpResponse
  pub rest : List ℕ
  pub pending : List ReadOutcome

abbrev pub response_reading :
    Result Fault SmtpResponse → List ℕ → List ReadOutcome → ResponseReading
response_reading r rest pending = record { result = r; rest = rest; pending = pending }

-- The trims in the order of the source.
unfoldable pub trim_line_end : Text → Text
trim_line_end raw_line = trim_end_matches b'\n' (trim_end_matches b'\r' raw_line)

module _ (lossy : List ℕ → Text) where
  -- The next rounds are a function of the lines and the enhanced code so far.
  abbrev pub Again : Type 0
  Again = List Text → Option Text → Option ResponseReading

  unfoldable pub after_line :
      List Text
      → Option Text
      → Again
      → Result Fault ReplyLine
      → List ℕ
      → List ReadOutcome
      → Option ResponseReading
  after_line lines enhanced again (err e) rest pending =
      some (response_reading (err e) rest pending)
  after_line lines enhanced again (ok line) rest pending =
      let lines' = lines ++ line.text ∷ [] in
      let enhanced' = enhanced_of enhanced line.text in
      let next = again lines' enhanced' in
      let response : SmtpResponse = record {
        code = line.code;
        enhanced = enhanced';
        lines = lines';
      } in
      if line.more then next else some (response_reading (ok response) rest pending)

  unfoldable pub after_raw :
      List Text
      → Option Text
      → Again
      → Result SentioError (List ℕ)
      → List ℕ
      → List ReadOutcome
      → Option ResponseReading
  after_raw lines enhanced again (err e) rest pending =
      some (response_reading (err (error e)) rest pending)
  after_raw lines enhanced again (ok raw) rest pending =
      after_line lines enhanced again (parse_reply_line (trim_line_end (decode_line lossy raw)))
        rest pending

  unfoldable pub read_lines :
      (fuel : ℕ) → List Text → Option Text → List ℕ → List ReadOutcome → Option ResponseReading
  read_lines zero lines enhanced buf pending = none
  read_lines (suc fuel) lines enhanced buf pending =
      let r = read_raw_line buf pending in
      after_raw lines enhanced
        (λ lines' enhanced'. read_lines fuel lines' enhanced' r.rest r.pending) r.result r.rest
        r.pending

  abbrev pub answered : Option ResponseReading → Io SmtpResponse
  answered none c = (err panicked, c)
  answered (some r) c = (r.result, record c { read_buf = r.rest; pending = r.pending })

  -- Each round takes a line feed, so the bytes that can come are fuel enough.
  unfoldable pub read_response : Io SmtpResponse
  read_response c =
      answered (read_lines (suc (input c.read_buf c.pending)) [] none c.read_buf c.pending) c
