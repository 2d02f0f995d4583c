-- ===== src/Transfer/Delivery.antt =====
-- A message through both programs: `dot_stuff` of the client, `read_data` of the server.
use sentio.Common.{
  ℕ, ◌≤◌, true, List, [], ◌∷◌, ◌++◌, some, ◌≡◌, sym, ap, subst, ◌∙◌, ok, length, append_assoc,
}
use sentio.Client.DotStuff.{dot_stuff_from, crlf, end_line, dot_stuff}
use sentio.Server.Validation.{dot_unstuff}
use sentio.Server.Reader.{
  ReadEvent, got, reading, bare_dot, find_terminator, finish_data, read_data,
}
use sentio.Server.Reader.Rounds.{read_data_from_nil, read_data_from_ends, finish_data_fits}
use sentio.Transfer.Stuffing.{dot_unstuff_from-dot_stuff_from, end_line-dot_stuff_from}
use sentio.Transfer.Ending.{
  find_terminator-dot_stuff_from, dot_stuff_from-append_crlf, end_line_ends,
}

read_data_one_read :
    (max : ℕ) (buf pre rest : List ℕ) (ev : List ReadEvent)
    → find_terminator buf ≡ some (pre, rest)
    → read_data max [] (got buf ∷ ev) ≡ reading (finish_data max (pre ++ crlf)) rest ev
unfolding read_data find_terminator
read_data_one_read max [] pre rest ev e = cc
read_data_one_read max (b ∷ bytes) pre rest ev e =
    read_data_from_nil max b bytes ev ∙ read_data_from_ends max [] (b ∷ bytes) pre rest ev e

-- What the client sends is the stuffed form of the data with its line end, and the dot.
dot_stuff_lem :
    (message : List ℕ) → dot_stuff message ≡ dot_stuff_from true (end_line message) ++ bare_dot
unfolding dot_stuff
dot_stuff_lem message = ap (λ s. s ++ bare_dot) (end_line-dot_stuff_from true message)

-- The body that the server hands to `dot_unstuff` is the stuffed message with its line end.
stuffed_body :
    (message u : List ℕ)
    → end_line message ≡ u ++ crlf
    → dot_stuff_from true u ++ crlf ≡ dot_stuff_from true (end_line message)
stuffed_body message u ends =
    sym (dot_stuff_from-append_crlf true u) ∙ ap (dot_stuff_from true) (sym ends)

find_terminator-dot_stuff :
    (message more u : List ℕ)
    → end_line message ≡ u ++ crlf
    → find_terminator (dot_stuff message ++ more) ≡ some (dot_stuff_from true u, more)
find_terminator-dot_stuff message more u ends =
    ap (λ s. find_terminator (s ++ more)) (dot_stuff_lem message)
    ∙ ap (λ s. find_terminator ((dot_stuff_from true s ++ bare_dot) ++ more)) ends
    ∙ ap find_terminator (append_assoc (dot_stuff_from true (u ++ crlf)) bare_dot more)
    ∙ find_terminator-dot_stuff_from true u more

-- The final size check passes, and unstuffing gives the message back.
finish_data-dot_stuff_from :
    (max : ℕ) (message : List ℕ)
    → length (end_line (dot_stuff_from true message)) ≤ max
    → finish_data max (dot_stuff_from true (end_line message)) ≡ ok (end_line message)
unfolding dot_unstuff
finish_data-dot_stuff_from max message fits =
    finish_data_fits max (dot_stuff_from true (end_line message))
      (subst (λ s. length s ≤ max) (end_line-dot_stuff_from true message) fits)
    ∙ ap ok (dot_unstuff_from-dot_stuff_from true (end_line message))

-- A message that the client sends and that comes in one read is received as it was, with a line
-- end; what the client sent behind it stays in the buffer.
pub read_data-dot_stuff :
    (max : ℕ) (message more : List ℕ) (ev : List ReadEvent)
    → length (end_line (dot_stuff_from true message)) ≤ max
    → read_data max [] (got (dot_stuff message ++ more) ∷ ev)
      ≡ reading (ok (end_line message)) more ev
read_data-dot_stuff max message more ev fits =
    let (u, ends) = end_line_ends message in
    read_data_one_read max (dot_stuff message ++ more) (dot_stuff_from true u) more ev
      (find_terminator-dot_stuff message more u ends)
    ∙ ap (λ s. reading (finish_data max s) more ev) (stuffed_body message u ends)
    ∙ ap (λ r. reading r more ev) (finish_data-dot_stuff_from max message fits)
