-- ===== src/Server/Reader/Rounds.antt =====
-- One round of `read_data` of crates/sentio-smtp-server/src/session.rs, branch by branch.
use sentio.Common.{
  ℕ, ◌≤◌, ◌<◌, List, [], ◌∷◌, ◌++◌, none, some, true, false, ◌≡◌, arith, drop, take, length, ok,
  err,
}
use sentio.Common.Text.{starts_with}
use sentio.Server.Validation.{dot_unstuff}
use sentio.Server.Reader.{
  ReadEvent, got, failed, timed_out, Reading, reading, line_too_long, safe, bare_dot,
  find_terminator, finish_data, data_or, read_data_from,
}

module _ (max : ℕ) where
  pub finish_data_fits :
      (body : List ℕ) → length body ≤ max → finish_data max body ≡ ok (dot_unstuff body)
  unfolding finish_data
  finish_data_fits body h = ground arith

  pub finish_data_exceeds :
      (body : List ℕ) → max < length body → finish_data max body ≡ err line_too_long
  unfolding finish_data
  finish_data_exceeds body h = ground arith

  module _ (body buf : List ℕ) (ev : List ReadEvent) (next : Reading (List ℕ)) where
    pub data_or_ends :
        (pre rest : List ℕ)
        → find_terminator buf ≡ some (pre, rest)
        → data_or max body buf ev next
          ≡ reading (finish_data max (body ++ (pre ++ (b'\r' ∷ b'\n' ∷ [])))) rest ev
    unfolding data_or
    data_or_ends pre rest e = rw (e, data_or)

    pub data_or_bare :
        find_terminator buf ≡ none
        → starts_with bare_dot buf ≡ true
        → data_or max body buf ev next ≡ reading (finish_data max body) (drop 3 buf) ev
    unfolding data_or
    data_or_bare e d = ground arith

    pub data_or_next :
        find_terminator buf ≡ none
        → starts_with bare_dot buf ≡ false
        → length (body ++ take (safe buf) buf) ≤ max
        → data_or max body buf ev next ≡ next
    unfolding data_or
    data_or_next e d h = ground arith

  -- The round before the first read does nothing: the buffer is empty.
  pub data_or_nil :
      (ev : List ReadEvent) (next : Reading (List ℕ)) → data_or max [] [] ev next ≡ next
  unfolding data_or find_terminator starts_with
  data_or_nil ev next = ground arith

  -- Whatever the coming reads, a round that ends the message ends it.
  pub read_data_from_bare :
      (body buf : List ℕ) (ev : List ReadEvent)
      → find_terminator buf ≡ none
      → starts_with bare_dot buf ≡ true
      → read_data_from max body buf ev ≡ reading (finish_data max body) (drop 3 buf) ev
  unfolding read_data_from
  read_data_from_bare body buf [] e d = data_or_bare body buf _ _ e d
  read_data_from_bare body buf (failed ∷ ev) e d = data_or_bare body buf _ _ e d
  read_data_from_bare body buf (timed_out ∷ ev) e d = data_or_bare body buf _ _ e d
  read_data_from_bare body buf (got [] ∷ ev) e d = data_or_bare body buf _ _ e d
  read_data_from_bare body buf (got (b ∷ bytes) ∷ ev) e d = data_or_bare body buf _ _ e d

  pub read_data_from_ends :
      (body buf pre rest : List ℕ) (ev : List ReadEvent)
      → find_terminator buf ≡ some (pre, rest)
      → read_data_from max body buf ev
        ≡ reading (finish_data max (body ++ (pre ++ (b'\r' ∷ b'\n' ∷ [])))) rest ev
  unfolding read_data_from
  read_data_from_ends body buf pre rest [] e = data_or_ends body buf _ _ pre rest e
  read_data_from_ends body buf pre rest (failed ∷ ev) e = data_or_ends body buf _ _ pre rest e
  read_data_from_ends body buf pre rest (timed_out ∷ ev) e = data_or_ends body buf _ _ pre rest e
  read_data_from_ends body buf pre rest (got [] ∷ ev) e = data_or_ends body buf _ _ pre rest e
  read_data_from_ends body buf pre rest (got (b ∷ bytes) ∷ ev) e =
      data_or_ends body buf _ _ pre rest e

  -- A round that ends nothing moves the safe bytes to the body and reads on.
  pub read_data_from_next :
      (body buf : List ℕ) (b : ℕ) (bytes : List ℕ) (ev : List ReadEvent)
      → find_terminator buf ≡ none
      → starts_with bare_dot buf ≡ false
      → length (body ++ take (safe buf) buf) ≤ max
      → read_data_from max body buf (got (b ∷ bytes) ∷ ev)
        ≡ read_data_from max (body ++ take (safe buf) buf) (drop (safe buf) buf ++ b ∷ bytes) ev
  unfolding read_data_from
  read_data_from_next body buf b bytes ev e d h = data_or_next body buf _ _ e d h

  pub read_data_from_nil :
      (b : ℕ) (bytes : List ℕ) (ev : List ReadEvent)
      → read_data_from max [] [] (got (b ∷ bytes) ∷ ev) ≡ read_data_from max [] (b ∷ bytes) ev
  unfolding read_data_from
  read_data_from_nil b bytes ev = data_or_nil _ _
