-- ===== src/Client/DotStuff.antt =====
-- Dot-stuffing of outgoing data: `dot_stuff` of crates/sentio-smtp-client/src/connection.rs.
use sentio.Common.{ℕ, Bool, true, ◌&&◌, List, [], ◌∷◌, ◌++◌, ◌==◌, if◌then◌else◌}

-- The loop, with its flag `at_line_start`.
unfoldable pub dot_stuff_from : Bool → List ℕ → List ℕ
dot_stuff_from at_line_start [] = []
dot_stuff_from at_line_start (byte ∷ bytes) =
    let out = byte ∷ dot_stuff_from (byte == b'\n') bytes in
    if at_line_start && byte == b'.' then b'.' ∷ out else out

abbrev pub crlf : List ℕ
crlf = b'\r' ∷ b'\n' ∷ []

-- `if !out.ends_with("\r\n")`: a bare LF at the end becomes CRLF, anything else gets CRLF.
unfoldable pub end_line : List ℕ → List ℕ
end_line [] = crlf
end_line (c ∷ []) = if c == b'\n' then crlf else c ∷ crlf
end_line (c ∷ d ∷ []) =
    if d == b'\n' then (if c == b'\r' then c ∷ d ∷ [] else c ∷ crlf) else c ∷ d ∷ crlf
end_line (c ∷ d ∷ e ∷ out) = c ∷ end_line (d ∷ e ∷ out)

unfoldable pub dot_stuff : List ℕ → List ℕ
unfolding dot_stuff_from end_line
dot_stuff bytes = end_line (dot_stuff_from true bytes) ++ (b'.' ∷ crlf)
