-- ===== src/Transfer/Raw.antt =====
-- Lines at the start of a stream (crates/sentio-smtp-client/src/connection.rs), and the length of a reply.
use sentio.Common.{
  ℕ, ◌≤◌, List, [], ◌∷◌, ◌++◌, some, ◌≡◌, ◌≢◌, refl, arith, length, length-append, All, ok,
}
use sentio.Common.Text.{Text, codes, decimal}
use sentio.Server.Reader.{split_line}
use sentio.Server.Response
use sentio.Server.Response.{enhanced_part, wire_line, wire_lines, to_bytes}
use sentio.Client.Wire.{
  ReadOutcome, received, read_failed, read_late, line_reading, line_or, read_raw_line, input,
}

split_line-line :
    (s more : List ℕ) → All (λ c. c ≢ b'\n') s → split_line (s ++ b'\n' ∷ more) ≡ some (s, more)
unfolding split_line
split_line-line [] more h = refl
split_line-line (c ∷ s) more h = ground (arith, split_line-line s more h.1)

pub read_raw_line-line :
    (s more : List ℕ) (ev : List ReadOutcome)
    → All (λ c. c ≢ b'\n') s
    → read_raw_line (s ++ b'\n' ∷ more) ev ≡ line_reading (ok (s ++ b'\n' ∷ [])) more ev
unfolding read_raw_line line_or
read_raw_line-line s more [] h = rw (split_line-line s more h, line_or) refl
read_raw_line-line s more (received [] ∷ ev) h = rw (split_line-line s more h, line_or) refl
read_raw_line-line s more (received (b ∷ bytes) ∷ ev) h =
    rw (split_line-line s more h, line_or) refl
read_raw_line-line s more (read_failed e ∷ ev) h = rw (split_line-line s more h, line_or) refl
read_raw_line-line s more (read_late ∷ ev) h = rw (split_line-line s more h, line_or) refl

pub input_least : (buf : List ℕ) (ev : List ReadOutcome) → length buf ≤ input buf ev
unfolding input
input_least buf [] = omega arith
input_least buf (received bytes ∷ ev) = omega (arith, input_least buf ev)
input_least buf (read_failed e ∷ ev) = input_least buf ev
input_least buf (read_late ∷ ev) = input_least buf ev

-- Each line has its line end at least.
wire_line_least :
    (r : Response.SmtpResponse) (sep : ℕ) (line : Text) → 1 ≤ length (wire_line r sep line)
wire_line_least r sep line = omega (
  arith,
  length-append {0} (decimal r.code) (sep ∷ (enhanced_part r.enhanced ++ (line ++ codes "\r\n"))),
)

pub wire_lines_least :
    (r : Response.SmtpResponse) (lines : List Text) → length lines ≤ length (wire_lines r lines)
unfolding wire_lines
wire_lines_least r [] = omega arith
wire_lines_least r (line ∷ []) = wire_line_least r b' ' line
wire_lines_least r (line ∷ next ∷ lines) = omega (
  arith,
  wire_line_least r b'-' line,
  wire_lines_least r (next ∷ lines),
  length-append {0} (wire_line r b'-' line) (wire_lines r (next ∷ lines)),
)
