-- ===== src/Transfer/Ending.antt =====
-- Where the server finds the end of what the client has stuffed.
use sentio.Common.{
  ℕ, Bool, false, List, [], ◌∷◌, ◌++◌, some, inl, inr, ◌≡◌, refl, ap, arith, ◌==◌, Bool-cases,
}
use sentio.Common.Text.{starts_with}
use sentio.Client.DotStuff.{dot_stuff_from, crlf, end_line}
use sentio.Server.Reader.{terminator, bare_dot, find_terminator}

-- No byte of stuffed data is the first of a terminator, but the CRLF at its end.
no_terminator :
    (c : ℕ) (u more : List ℕ)
    → starts_with terminator (c ∷ (dot_stuff_from (c == b'\n') (u ++ crlf) ++ more)) ≡ false
unfolding starts_with dot_stuff_from
no_terminator c [] more = ground arith
no_terminator c (d ∷ []) more = ground arith
no_terminator c (d ∷ e ∷ u) more = ground arith

pub find_terminator-dot_stuff_from :
    (b : Bool) (u more : List ℕ)
    → find_terminator (dot_stuff_from b (u ++ crlf) ++ (bare_dot ++ more))
      ≡ some (dot_stuff_from b u, more)
unfolding find_terminator starts_with dot_stuff_from
find_terminator-dot_stuff_from b [] more = ground arith
find_terminator-dot_stuff_from b (c ∷ u) more = ground (
  arith,
  no_terminator c u (bare_dot ++ more),
  find_terminator-dot_stuff_from (c == b'\n') u more,
)

-- What `dot_stuff` ends ends in CRLF.
pub end_line_ends : (s : List ℕ) → (u : List ℕ) × (end_line s ≡ u ++ crlf)
unfolding end_line
end_line_ends [] = ([], refl)
end_line_ends (c ∷ []) = elim (Bool-cases (c == b'\n')) [
  | inl e ↦ ([], rw e)
  | inr e ↦ (c ∷ [], rw e)
]
end_line_ends (c ∷ d ∷ []) = elim (Bool-cases (d == b'\n')) [
  | inl e ↦ elim (Bool-cases (c == b'\r')) [
    | inl f ↦ ([], ground arith)
    | inr f ↦ (c ∷ [], rw (e, f))
  ]
  | inr e ↦ (c ∷ d ∷ [], rw e)
]
end_line_ends (c ∷ d ∷ e ∷ s) =
    let (u, ends) = end_line_ends (d ∷ e ∷ s) in (c ∷ u, ap (◌∷◌ c) ends)

-- The CRLF at the end is not stuffed.
pub dot_stuff_from-append_crlf :
    (b : Bool) (u : List ℕ) → dot_stuff_from b (u ++ crlf) ≡ dot_stuff_from b u ++ crlf
unfolding dot_stuff_from
dot_stuff_from-append_crlf b [] = ground arith
dot_stuff_from-append_crlf b (c ∷ u) = ground (arith, dot_stuff_from-append_crlf (c == b'\n') u)
