-- ===== src/Server/Validation.antt =====
-- Shared validation helpers: crates/sentio-smtp-server/src/validation.rs. Texts and message data
-- are lists of numbers; data is bytes.
pub mod Laws
use sentio.Common.{
  ℕ, ◌+◌, Bool, true, false, not, ◌&&◌, ◌||◌, List, [], ◌∷◌, ltb, leb, ◌==◌, if◌then◌else◌,
}
use sentio.Common.Text.{len, Text, codes, is_empty, starts_with, contains, to_ascii_uppercase}

unfoldable pub any : (ℕ → Bool) → Text → Bool
any p [] = false
any p (c ∷ s) = p c || any p s

unfoldable pub every : (ℕ → Bool) → Text → Bool
every p [] = true
every p (c ∷ s) = p c && every p s

-- A text has a byte above 127 exactly if it has a code point above 127.
unfoldable pub has_non_ascii : Text → Bool
unfolding any
has_non_ascii s = any (λ c. ltb 127 c) s

unfoldable pub ends_with_char : ℕ → Text → Bool
ends_with_char e [] = false
ends_with_char e (c ∷ []) = c == e
ends_with_char e (c ∷ d ∷ s) = ends_with_char e (d ∷ s)

abbrev is_ascii_alphanumeric : ℕ → Bool
is_ascii_alphanumeric b =
    (leb b'0' b && leb b b'9') || (leb b'A' b && leb b b'Z') || (leb b'a' b && leb b b'z')

unfoldable pub is_valid_ehlo_domain : Text → Bool
unfolding every len ends_with_char is_empty starts_with contains
is_valid_ehlo_domain domain =
    if is_empty domain || ltb 255 (len domain)
    then false
    else if starts_with (codes "[") domain && ends_with_char b']' domain
    then true
    else if not (contains b'.' domain)
    then false
    else every (λ b. is_ascii_alphanumeric b || b == b'.' || b == b'-') domain

-- The loop of `dot_unstuff`, with its flag `at_line_start`; skipping a dot leaves the second one
-- to the next round.
unfoldable pub dot_unstuff_from : Bool → List ℕ → List ℕ
dot_unstuff_from at_line_start [] = []
dot_unstuff_from at_line_start (c ∷ []) = c ∷ []
dot_unstuff_from at_line_start (c ∷ d ∷ rest) =
    let skipped = dot_unstuff_from false (d ∷ rest) in
    let kept = c ∷ dot_unstuff_from (c == b'\n') (d ∷ rest) in
    if at_line_start && (c == b'.' && d == b'.') then skipped else kept

unfoldable pub dot_unstuff : List ℕ → List ℕ
unfolding dot_unstuff_from
dot_unstuff bytes = dot_unstuff_from true bytes

abbrev received_needle : Text
received_needle = codes "RECEIVED:"

-- A slice of nine bytes that equals the needle up to case.
unfoldable pub is_received_line : List ℕ → Bool
unfolding starts_with to_ascii_uppercase
is_received_line bytes = starts_with received_needle (to_ascii_uppercase bytes)

unfoldable pub count_after_newlines : List ℕ → ℕ
count_after_newlines [] = 0
count_after_newlines (c ∷ rest) =
    (if c == b'\n' && is_received_line rest then 1 else 0) + count_after_newlines rest

unfoldable pub count_received_headers : List ℕ → ℕ
unfolding count_after_newlines is_received_line
count_received_headers bytes =
    (if is_received_line bytes then 1 else 0) + count_after_newlines bytes
