-- ===== src/Server/Reader/Tests.antt =====
-- The reading of session.rs on concrete reads, and the instances of its theorems.
use Prim.Native.String.{String}
use sentio.Common.{ℕ, ◌≤◌, List, [], ◌∷◌, ◌++◌, some, ◌≡◌, refl, arith, ok, err, take, length}
use sentio.Common.Text.{codes, starts_with}
use sentio.Client.DotStuff.{crlf}
use sentio.Server.Validation.{dot_unstuff, dot_unstuff_from}
use sentio.Server.Reader.{
  ReadEvent, got, line_too_long, reading, bare_dot, split_line, strip_cr, line_or, read_line,
  find_terminator, read_data, read_data_from, data_or, finish_data, read_rest, read_exact_bytes,
}
use sentio.Server.Reader.Stream.{arriving, read_line_stream, read_exact_bytes_stream}
use sentio.Server.Reader.Complete.{read_line_first, read_exact_bytes_takes}
use sentio.Server.Reader.Conservation.{read_data_stream}
use sentio.Server.Reader.LongLines.{read_line_resumes}
use sentio.Server.Reader.Limits.{length-read_data}
use sentio.Server.Reader.Truncation.{first_read, read_data_cut_short}

abbrev line : String → List ℕ
line s = codes s ++ crlf

-- A command line that comes in two reads, with the start of the next one.
abbrev reads : List ReadEvent
reads = got (codes "OP") ∷ got (b'\r' ∷ b'\n' ∷ codes "QU") ∷ []

line_result : (read_line 10 (codes "NO") reads).result ≡ ok (some (codes "NOOP"))
unfolding read_line line_or split_line strip_cr
line_result = refl

read_line_stream_example :
    (raw : List ℕ) × ((strip_cr raw ≡ codes "NOOP")
      × (split_line (codes "NO" ++ arriving reads)
          ≡ some (
            raw,
            (read_line 10 (codes "NO") reads).read_buf
                ++ arriving (read_line 10 (codes "NO") reads).pending,
          )))
read_line_stream_example = read_line_stream 10 (codes "NO") reads line_result

noop_first :
    split_line (codes "NO" ++ arriving reads) ≡ some (codes "NOOP" ++ b'\r' ∷ [], codes "QU")
unfolding split_line
noop_first = refl

first_line :
    ((read_line 10 (codes "NO") reads).result ≡ ok (some (strip_cr (codes "NOOP" ++ b'\r' ∷ []))))
    × ((read_line 10 (codes "NO") reads).read_buf
          ++ arriving (read_line 10 (codes "NO") reads).pending
        ≡ codes "QU")
first_line =
    read_line_first 10 (codes "NO") reads (codes "NOOP" ++ b'\r' ∷ []) (codes "QU") noop_first
      (omega arith)

five_bytes_taken :
    (read_exact_bytes 5 (codes "NO") reads).result ≡ ok (take 5 (codes "NO" ++ arriving reads))
five_bytes_taken = read_exact_bytes_takes 5 (codes "NO") reads (omega arith)

five : (read_exact_bytes 5 (codes "NO") reads).result ≡ ok (codes "NOOP" ++ b'\r' ∷ [])
unfolding read_exact_bytes read_rest
five = refl

five_bytes_stream :
    (length (codes "NOOP" ++ b'\r' ∷ []) ≡ 5)
    × (codes "NO" ++ arriving reads
        ≡ (codes "NOOP" ++ b'\r' ∷ [])
          ++ ((read_exact_bytes 5 (codes "NO") reads).read_buf
              ++ arriving (read_exact_bytes 5 (codes "NO") reads).pending))
five_bytes_stream = read_exact_bytes_stream 5 (codes "NO") reads five

abbrev body : List ReadEvent
body = got (line "..a" ++ line "b") ∷ got (line "." ++ codes "QUIT") ∷ []

body_result : (read_data 20 [] body).result ≡ ok (line ".a" ++ line "b")
unfolding read_data read_data_from data_or find_terminator starts_with finish_data dot_unstuff
    dot_unstuff_from
body_result = refl

length-read_data_example : length (line ".a" ++ line "b") ≤ 20
length-read_data_example = length-read_data 20 [] body body_result

-- The data `Hi.`, `RSET`, `.` as they come in three reads.
read_data_cut_short_example :
    read_data 100 []
      (got (first_read b'H' (b'i' ∷ []) b'R') ∷ got (line "SET") ∷ got (line ".") ∷ [])
    ≡ reading (ok (dot_unstuff (codes "Hi"))) (b'R' ∷ line "SET") (got (line ".") ∷ [])
unfolding find_terminator starts_with
read_data_cut_short_example =
    read_data_cut_short b'H' (b'i' ∷ []) b'R' 100 b'S' (line "ET") (got (line ".") ∷ [])
      (omega arith) refl refl refl

read_data_stream_example :
    (raw : List ℕ) × ((dot_unstuff raw ≡ line ".a" ++ line "b")
      × ([] ++ arriving body
          ≡ raw
            ++ (bare_dot
                ++ ((read_data 20 [] body).read_buf ++ arriving (read_data 20 [] body).pending))))
read_data_stream_example = read_data_stream 20 [] body body_result

-- A line of eleven bytes with a limit of five, in two reads.
read_line_resumes_example :
    ((read_line 5 (codes "AAAAAAA") (got (line "RSET") ∷ [])).result ≡ err line_too_long)
    × ((read_line 5
          (read_line 5 (codes "AAAAAAA") (got (line "RSET") ∷ [])).read_buf
          (read_line 5 (codes "AAAAAAA") (got (line "RSET") ∷ [])).pending).result
        ≡ ok (some (strip_cr (codes "RSET" ++ b'\r' ∷ []))))
unfolding split_line
read_line_resumes_example =
    read_line_resumes 5 (codes "AAAAAAA") (got (line "RSET") ∷ []) (codes "RSET" ++ b'\r' ∷ []) []
      refl (omega arith) refl (omega arith)
