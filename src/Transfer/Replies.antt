-- ===== src/Transfer/Replies.antt =====
-- A reply from the server (crates/sentio-smtp-server/src/response.rs) to the client
-- (crates/sentio-smtp-client/src/connection.rs).
use sentio.Common.{
  ℕ, zero, suc, ◌<◌, ◌≤◌, List, [], ◌∷◌, ◌++◌, Option, none, some, ◌≡◌, ◌≢◌, refl, subst, ap, ◌∙◌,
  inl, arith, length, length-append, All, All-map, All-append, append_assoc, ◌==◌, if◌then◌else◌,
  ok,
}
use sentio.Common.Text.{Text, decimal}
use sentio.Common.Text.Numbers.{decimal-digits}
use sentio.Common.Utf8.{from_utf8}
use sentio.Common.Utf8.Encode.{to_utf8_ascii, from_utf8-to_utf8}
use sentio.Transfer.Raw.{read_raw_line-line, input_least, wire_lines_least}
use sentio.Server.Response
use sentio.Server.Response.{enhanced_part, wire_line, wire_lines, to_bytes}
use sentio.Client.Wire.{ReadOutcome, decode_line, input, SmtpConnection}
use sentio.Client.Reply.{
  enhanced_of, trim_line_end, parse_reply_line, response_reading, answered, after_line, after_raw,
  read_lines, read_response,
}
use sentio.Client.Reply.Lines.{parse_reply_line-wire, trim_line_end_keeps_cr}

-- What may stand in a line of a reply: ASCII without line feeds.
abbrev pub IsLine : Text → Type 0
IsLine s = All (λ c. (c < 0x80) × (c ≢ b'\n')) s

abbrev pub received_text : Response.SmtpResponse → (line : Text) → Text
received_text r line = enhanced_part r.enhanced ++ (line ++ b'\r' ∷ [])

abbrev pub received_texts : Response.SmtpResponse → List Text → List Text
received_texts r [] = []
received_texts r (line ∷ lines) = received_text r line ∷ received_texts r lines

-- The first text that begins with an enhanced code, if there is none yet.
abbrev pub first_enhanced : Option Text → List Text → Option Text
first_enhanced e [] = e
first_enhanced e (text ∷ texts) = first_enhanced (enhanced_of e text) texts

module _ (lossy : List ℕ → Text) (r : Response.SmtpResponse) (low : 100 ≤ r.code)
    (high : r.code < 1000) (enh : IsLine (enhanced_part r.enhanced)) where
  abbrev line_body : (sep : ℕ) → (line : Text) → Text
  line_body sep line = decimal r.code ++ (sep ∷ received_text r line)

  wire_line-append :
      (sep : ℕ) (line more : Text)
      → wire_line r sep line ++ more ≡ line_body sep line ++ b'\n' ∷ more
  wire_line-append sep line more = simp append_assoc

  body-IsLine :
      (sep : ℕ) (line : Text) → sep < 0x80 → sep ≢ b'\n' → IsLine line → IsLine (line_body sep line)
  body-IsLine sep line s n h =
      All-append _ (decimal r.code) _
        (All-map _ _ (decimal r.code) (λ c p. omega (arith, p)) (decimal-digits r.code))
        (
          (s, n),
          All-append _ (enhanced_part r.enhanced) _ enh (All-append _ line _ h (omega arith)),
        )

  parse_wire :
      (sep : ℕ) (text : Text)
      → sep < 0x80
      → text ≢ []
      → parse_reply_line (decimal r.code ++ (sep ∷ text))
        ≡ ok (record { code = r.code; more = sep == b'-'; text = text })
  parse_wire sep [] s n = absurd (n refl)
  parse_wire sep (c ∷ text) s n = parse_reply_line-wire r.code sep c text low high s

  nonempty : (s t : Text) → s ++ (t ++ b'\r' ∷ []) ≢ []
  nonempty [] [] e = cc
  nonempty [] (c ∷ t) e = cc
  nonempty (c ∷ s) t e = cc

  decoded_line : (bytes : List ℕ) → All (λ c. c < 0x80) bytes → decode_line lossy bytes ≡ bytes
  unfolding decode_line
  decoded_line bytes ascii =
      let decoded : from_utf8 bytes ≡ some bytes =
        subst (λ b. from_utf8 b ≡ some bytes) (to_utf8_ascii bytes ascii)
          (from_utf8-to_utf8 bytes (All-map _ _ bytes (λ c p. inl (omega (arith, p))) ascii)) in
      rw (decoded, decode_line) refl

  -- A line as it comes from the stream, decoded, trimmed and parsed.
  line_parsed :
      (sep : ℕ) (line : Text)
      → sep < 0x80
      → sep ≢ b'\n'
      → IsLine line
      → parse_reply_line (trim_line_end (decode_line lossy (line_body sep line ++ b'\n' ∷ [])))
        ≡ ok (record { code = r.code; more = sep == b'-'; text = received_text r line })
  line_parsed sep line s n h =
      let ascii : All (λ c. c < 0x80) (line_body sep line ++ b'\n' ∷ []) =
        All-append _ (line_body sep line) _
          (All-map _ _ (line_body sep line) (λ c p. p.0) (body-IsLine sep line s n h))
          (omega arith) in
      let front = decimal r.code ++ (sep ∷ (enhanced_part r.enhanced ++ line)) in
      let shape : line_body sep line ++ b'\n' ∷ [] ≡ front ++ b'\r' ∷ b'\n' ∷ [] =
        simp append_assoc in
      let back : front ++ b'\r' ∷ [] ≡ line_body sep line = simp append_assoc in
      ap (λ t. parse_reply_line (trim_line_end t)) (decoded_line _ ascii ∙ shape)
      ∙ ap parse_reply_line (trim_line_end_keeps_cr front ∙ back)
      ∙ parse_wire sep (received_text r line) s (nonempty (enhanced_part r.enhanced) line)

  -- The round of `read_response` for a line of the reply.
  round :
      (fuel : ℕ) (texts : List Text) (e : Option Text) (sep : ℕ) (line more : Text)
      (ev : List ReadOutcome)
      → sep < 0x80
      → sep ≢ b'\n'
      → IsLine line
      → let text = received_text r line in
        let texts' = texts ++ text ∷ [] in
        let e' = enhanced_of e text in
        read_lines lossy (suc fuel) texts e (wire_line r sep line ++ more) ev ≡ (
          if sep == b'-'
          then read_lines lossy fuel texts' e' more ev
          else some (
              response_reading
                (ok (record { code = r.code; enhanced = e'; lines = texts' }))
                more
                ev))
  unfolding read_lines after_raw after_line
  round fuel texts e sep line more ev s n h =
      let raw =
        read_raw_line-line (line_body sep line) more ev
          (All-map _ _ (line_body sep line) (λ c p. p.1) (body-IsLine sep line s n h)) in
      rw (wire_line-append sep line more) (rw raw (rw (line_parsed sep line s n h) refl))

  -- The loop over the lines that are left.
  read_lines-wire_lines :
      (fuel : ℕ) (texts : List Text) (e : Option Text) (line : Text) (lines : List Text)
      (more : Text) (ev : List ReadOutcome)
      → length lines < fuel
      → All IsLine (line ∷ lines)
      → read_lines lossy fuel texts e (wire_lines r (line ∷ lines) ++ more) ev
        ≡ some (
            response_reading
              (ok (record {
                code = r.code;
                enhanced = first_enhanced e (received_texts r (line ∷ lines));
                lines = texts ++ received_texts r (line ∷ lines);
              }))
              more
              ev)
  unfolding wire_lines
  read_lines-wire_lines zero texts e line lines more ev f h = absurd (omega arith)
  read_lines-wire_lines (suc fuel) texts e line [] more ev f h =
      round fuel texts e b' ' line more ev (omega arith) (omega arith) h.0
  read_lines-wire_lines (suc fuel) texts e line (next ∷ lines) more ev f h =
      let text = received_text r line in
      ap (λ bytes. read_lines lossy (suc fuel) texts e bytes ev)
        (append_assoc (wire_line r b'-' line) (wire_lines r (next ∷ lines)) more)
      ∙ round fuel texts e b'-' line (wire_lines r (next ∷ lines) ++ more) ev (omega arith)
          (omega arith) h.0
      ∙ read_lines-wire_lines fuel (texts ++ text ∷ []) (enhanced_of e text) next lines more ev
          (omega arith) h.1
      ∙ ap
          (λ l. some (
            response_reading
              (ok (record {
                code = r.code;
                enhanced = first_enhanced e (received_texts r (line ∷ next ∷ lines));
                lines = l;
              }))
              more ev))
          (append_assoc texts (text ∷ []) (received_texts r (next ∷ lines)))

  read_lines_whole :
      (lines : List Text) (more : Text) (ev : List ReadOutcome)
      → lines ≢ []
      → All IsLine lines
      → read_lines lossy
          (suc (input (wire_lines r lines ++ more) ev))
          []
          none
          (wire_lines r lines ++ more)
          ev
        ≡ some (
            response_reading
              (ok (record {
                code = r.code;
                enhanced = first_enhanced none (received_texts r lines);
                lines = received_texts r lines;
              }))
              more
              ev)
  read_lines_whole [] more ev n h = absurd (n refl)
  read_lines_whole (line ∷ lines) more ev n h =
      let wire = wire_lines r (line ∷ lines) in
      read_lines-wire_lines _ [] none line lines more ev
        (omega (
          arith,
          input_least (wire ++ more) ev,
          wire_lines_least r (line ∷ lines),
          length-append {0} wire more,
        ))
        h

  -- What the server sends for a reply of at least one line, the client reads as that reply: the same code, a
  -- text for each line with the enhanced code and the carriage return in it, and what follows stays in the
  -- buffer.
  pub read_response-to_bytes :
      (c : SmtpConnection) (more : List ℕ)
      → r.lines ≢ []
      → All IsLine r.lines
      → read_response lossy (record c { read_buf = to_bytes r ++ more }) ≡ (
        ok (record {
          code = r.code;
          enhanced = first_enhanced none (received_texts r r.lines);
          lines = received_texts r r.lines;
        }),
        record c { read_buf = more },
      )
  unfolding read_response to_bytes
  read_response-to_bytes c more n h =
      ap (λ reading. answered lossy reading (record c { read_buf = to_bytes r ++ more }))
        (read_lines_whole r.lines more c.pending n h)
