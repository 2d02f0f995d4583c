-- ===== src/Server/Reader/Truncation.antt =====
-- The end of data that `read_data` sees where there is none: session.rs tests for a bare
-- `.CRLF` at the head of its buffer in every round, also after bytes have been moved out of it.
use sentio.Common.{
  ℕ, ◌≤◌, List, [], ◌∷◌, ◌++◌, none, true, false, ◌≡◌, refl, ap, ◌∙◌, ok, arith, take, drop, length,
  length-append, take-append, drop-append,
}
use sentio.Common.Text.{starts_with}
use sentio.Server.Validation.{dot_unstuff}
use sentio.Server.Reader.Rounds.{
  read_data_from_nil, read_data_from_next, read_data_from_bare, finish_data_fits,
}
use sentio.Server.Reader.{
  ReadEvent, got, reading, safe, bare_dot, find_terminator, read_data_from, read_data,
}

module _ (p : ℕ) (ps : List ℕ) (x : ℕ) where
  abbrev pub first_read : List ℕ
  first_read = (p ∷ ps) ++ (b'.' ∷ b'\r' ∷ b'\n' ∷ x ∷ [])

  safe-first_read : safe first_read ≡ length (p ∷ ps)
  safe-first_read = omega (arith, length-append (p ∷ ps) (b'.' ∷ b'\r' ∷ b'\n' ∷ x ∷ []))

  take-first_read : take (safe first_read) first_read ≡ p ∷ ps
  take-first_read =
      ap (λ n. take n first_read) safe-first_read
      ∙ take-append (p ∷ ps) (b'.' ∷ b'\r' ∷ b'\n' ∷ x ∷ [])

  drop-first_read : drop (safe first_read) first_read ≡ b'.' ∷ b'\r' ∷ b'\n' ∷ x ∷ []
  drop-first_read =
      ap (λ n. drop n first_read) safe-first_read
      ∙ drop-append (p ∷ ps) (b'.' ∷ b'\r' ∷ b'\n' ∷ x ∷ [])

  -- If a read ends one byte after a line that ends in a dot, and the next one brings no end of data,
  -- then the message ends before that dot, and what follows its line is left to be read as commands.
  pub read_data_cut_short :
      (max c : ℕ) (cs : List ℕ) (ev : List ReadEvent)
      → length (p ∷ ps) ≤ max
      → find_terminator first_read ≡ none
      → starts_with bare_dot first_read ≡ false
      → find_terminator (b'.' ∷ b'\r' ∷ b'\n' ∷ x ∷ c ∷ cs) ≡ none
      → read_data max [] (got first_read ∷ got (c ∷ cs) ∷ ev)
        ≡ reading (ok (dot_unstuff (p ∷ ps))) (x ∷ c ∷ cs) ev
  unfolding read_data
  read_data_cut_short max c cs ev fits no_end no_dot no_end' =
      read_data_from_nil max p (ps ++ (b'.' ∷ b'\r' ∷ b'\n' ∷ x ∷ [])) (got (c ∷ cs) ∷ ev)
      ∙ read_data_from_next max [] first_read c cs ev no_end no_dot (rw take-first_read fits)
      ∙ ap (λ b. read_data_from max b (drop (safe first_read) first_read ++ c ∷ cs) ev)
          take-first_read
      ∙ ap (λ b. read_data_from max (p ∷ ps) (b ++ c ∷ cs) ev) drop-first_read
      ∙ read_data_from_bare max (p ∷ ps) _ ev no_end' starts_bare
      ∙ ap (λ r. reading r (x ∷ c ∷ cs) ev) (finish_data_fits max (p ∷ ps) fits)
    where
      starts_bare : starts_with bare_dot (b'.' ∷ b'\r' ∷ b'\n' ∷ x ∷ c ∷ cs) ≡ true
      starts_bare = unfold starts_with in refl
