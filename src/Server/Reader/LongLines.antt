-- ===== src/Server/Reader/LongLines.antt =====
-- A line that is too long, in `read_line` of crates/sentio-smtp-server/src/session.rs: only what the
-- buffer holds of it is dropped.
use sentio.Common.{ℕ, ◌<◌, ◌≤◌, List, [], ◌∷◌, Option, none, some, ◌≡◌, arith, length, ok, err}
use sentio.Server.Reader.{
  ReadEvent, got, failed, timed_out, Reading, reading, line_too_long, split_line, strip_cr, line_or,
  read_line,
}
use sentio.Server.Reader.Stream.{arriving}
use sentio.Server.Reader.Complete.{read_line_first}

line_or_long :
    (max : ℕ) (buf : List ℕ) (ev : List ReadEvent) (next : Reading (Option (List ℕ)))
    → split_line buf ≡ none
    → max < length buf
    → line_or max buf ev next ≡ reading (err line_too_long) [] ev
unfolding line_or
line_or_long max buf ev next n h = ground arith

read_line_long :
    (max : ℕ) (buf : List ℕ) (ev : List ReadEvent)
    → split_line buf ≡ none
    → max < length buf
    → read_line max buf ev ≡ reading (err line_too_long) [] ev
unfolding read_line
read_line_long max buf [] n h = line_or_long max buf _ _ n h
read_line_long max buf (failed ∷ ev) n h = line_or_long max buf _ _ n h
read_line_long max buf (timed_out ∷ ev) n h = line_or_long max buf _ _ n h
read_line_long max buf (got [] ∷ ev) n h = line_or_long max buf _ _ n h
read_line_long max buf (got (b ∷ bytes) ∷ ev) n h = line_or_long max buf _ _ n h

-- If the buffer is above the limit and has no line end, then the line is refused, and the rest of the
-- same line, where the coming reads bring it within the limit, is returned as the next line.
pub read_line_resumes :
    (max : ℕ) (buf : List ℕ) (ev : List ReadEvent) (raw rest : List ℕ)
    → split_line buf ≡ none
    → max < length buf
    → split_line (arriving ev) ≡ some (raw, rest)
    → length raw ≤ max
    → let r = read_line max buf ev in
      (r.result ≡ err line_too_long)
      × ((read_line max r.read_buf r.pending).result ≡ ok (some (strip_cr raw)))
read_line_resumes max buf ev raw rest n h e fits =
    ground (arith, read_line_long max buf ev n h, read_line_first max [] ev raw rest e fits)
