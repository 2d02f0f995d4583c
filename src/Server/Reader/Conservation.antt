-- ===== src/Server/Reader/Conservation.antt =====
-- `read_data` of crates/sentio-smtp-server/src/session.rs neither loses nor moves a byte.
use sentio.Common.{
  ℕ, List, [], ◌∷◌, ◌++◌, Option, none, some, ◌≡◌, refl, sym, ap, subst, ◌∙◌, arith, Bool, true,
  false, ltb, if◌then◌else◌, take, drop, length, ok, inl, inr, Option-cases, append_assoc,
  take-append-drop,
}
use sentio.Common.Text.{starts_with}
use sentio.Client.DotStuff.{crlf}
use sentio.Server.Validation.{dot_unstuff}
use sentio.Server.Reader.{
  ReadEvent, got, failed, timed_out, Reading, reading, terminator, bare_dot, find_terminator, safe,
  finish_data, too_large, data_or, read_data_from, read_data,
}
use sentio.Server.Reader.Stream.{arriving}

starts_with_split : (p s : List ℕ) → starts_with p s ≡ true → s ≡ p ++ drop (length p) s
unfolding starts_with
starts_with_split [] s h = refl
starts_with_split (c ∷ p) [] h = cc
starts_with_split (c ∷ p) (a ∷ s) h = ground (arith, starts_with_split p s)

find_terminator-split :
    (buf pre rest : List ℕ)
    → find_terminator buf ≡ some (pre, rest)
    → buf ≡ pre ++ (terminator ++ rest)
unfolding find_terminator
find_terminator-split [] pre rest e = cc
find_terminator-split (c ∷ buf) pre rest e = elim (Option-cases (find_terminator buf)) [
  | inl n ↦ ground (arith, starts_with_split terminator (c ∷ buf))
  | inr ((pre', rest'), k) ↦
      ground (arith, starts_with_split terminator (c ∷ buf), find_terminator-split buf pre' rest' k)
]

-- The raw data is a prefix of the stream, and a dot on its own follows it.
abbrev Conserves : List ℕ → Reading (List ℕ) → Type 0
Conserves stream r =
    (bytes : List ℕ)
    → r.result ≡ ok bytes
    → (raw : List ℕ) × ((dot_unstuff raw ≡ bytes)
        × (stream ≡ raw ++ (bare_dot ++ (r.read_buf ++ arriving r.pending))))

finish_data-unstuffs :
    (max : ℕ) (raw bytes : List ℕ) → finish_data max raw ≡ ok bytes → dot_unstuff raw ≡ bytes
unfolding finish_data
finish_data-unstuffs max raw bytes e = ground arith

module _ (max : ℕ) (body buf : List ℕ) (ev : List ReadEvent) where
  at_end :
      (pre rest : List ℕ)
      → find_terminator buf ≡ some (pre, rest)
      → body ++ (buf ++ arriving ev)
        ≡ (body ++ (pre ++ crlf)) ++ (bare_dot ++ (rest ++ arriving ev))
  at_end pre rest e =
      ap (λ b. body ++ (b ++ arriving ev)) (find_terminator-split buf pre rest e)
      ∙ ap (λ b. body ++ b)
          (append_assoc pre (terminator ++ rest) (arriving ev)
            ∙ sym (append_assoc pre crlf (bare_dot ++ (rest ++ arriving ev))))
      ∙ sym (append_assoc body (pre ++ crlf) (bare_dot ++ (rest ++ arriving ev)))

  at_dot :
      starts_with bare_dot buf ≡ true
      → body ++ (buf ++ arriving ev) ≡ body ++ (bare_dot ++ (drop 3 buf ++ arriving ev))
  at_dot e = ap (λ b. body ++ (b ++ arriving ev)) (starts_with_split bare_dot buf e)

  data_or-Conserves :
      (next : Reading (List ℕ))
      → Conserves (body ++ (buf ++ arriving ev)) next
      → Conserves (body ++ (buf ++ arriving ev)) (data_or max body buf ev next)
  unfolding data_or
  data_or-Conserves next h = chosen (find_terminator buf) refl
    where
      small :
          (b : Bool)
          → Conserves
              (body ++ (buf ++ arriving ev))
              (if b then too_large (drop (safe buf) buf) ev else next)
      small true bytes e = cc
      small false bytes e = h bytes e

      bare :
          (b : Bool)
          → starts_with bare_dot buf ≡ b
          → Conserves (body ++ (buf ++ arriving ev)) (
              if b
              then reading (finish_data max body) (drop 3 buf) ev
              else if ltb max (length (body ++ take (safe buf) buf))
              then too_large (drop (safe buf) buf) ev
              else next)
      bare true k = λ bytes e. (body, (finish_data-unstuffs max body bytes e, at_dot k))
      bare false k = small (ltb max (length (body ++ take (safe buf) buf)))

      chosen :
          (o : Option (List ℕ × List ℕ))
          → find_terminator buf ≡ o
          → Conserves (body ++ (buf ++ arriving ev)) (elim o as (λ _. Reading (List ℕ)) [
            | some (pre, rest) ↦
                reading (finish_data max (body ++ (pre ++ (b'\r' ∷ b'\n' ∷ [])))) rest ev
            | none ↦
                if starts_with bare_dot buf
                then reading (finish_data max body) (drop 3 buf) ev
                else if ltb max (length (body ++ take (safe buf) buf))
                then too_large (drop (safe buf) buf) ev
                else next
          ])
      chosen none k = bare (starts_with bare_dot buf) refl
      chosen (some (pre, rest)) k = λ bytes e. (
        body ++ (pre ++ crlf),
        (finish_data-unstuffs max (body ++ (pre ++ crlf)) bytes e, at_end pre rest k),
      )

-- What a further read brings goes behind what is kept in the buffer.
next_stream :
    (n : ℕ) (body buf chunk rest : List ℕ)
    → (body ++ take n buf) ++ ((drop n buf ++ chunk) ++ rest) ≡ body ++ (buf ++ (chunk ++ rest))
next_stream n body buf chunk rest =
    ap (λ b. (body ++ take n buf) ++ b) (append_assoc (drop n buf) chunk rest)
    ∙ append_assoc body (take n buf) (drop n buf ++ (chunk ++ rest))
    ∙ ap (λ b. body ++ b)
        (sym (append_assoc (take n buf) (drop n buf) (chunk ++ rest))
          ∙ ap (λ b. b ++ (chunk ++ rest)) (take-append-drop n buf))

read_data_from-Conserves :
    (max : ℕ) (body buf : List ℕ) (ev : List ReadEvent)
    → Conserves (body ++ (buf ++ arriving ev)) (read_data_from max body buf ev)
unfolding read_data_from
read_data_from-Conserves max body buf [] = data_or-Conserves max body buf _ _ (λ bytes e. cc)
read_data_from-Conserves max body buf (failed ∷ ev) =
    data_or-Conserves max body buf _ _ (λ bytes e. cc)
read_data_from-Conserves max body buf (timed_out ∷ ev) =
    data_or-Conserves max body buf _ _ (λ bytes e. cc)
read_data_from-Conserves max body buf (got [] ∷ ev) =
    data_or-Conserves max body buf _ _ (λ bytes e. cc)
read_data_from-Conserves max body buf (got (b ∷ bytes) ∷ ev) = data_or-Conserves max body buf _ _ (
    subst
      (λ stream.
        Conserves stream
          (read_data_from max (body ++ take (safe buf) buf) (drop (safe buf) buf ++ b ∷ bytes) ev))
      (next_stream (safe buf) body buf (b ∷ bytes) (arriving ev))
      (read_data_from-Conserves max (body ++ take (safe buf) buf) (drop (safe buf) buf ++ b ∷ bytes)
        ev))

-- The data that is returned is the start of the stream with its dots unstuffed; a dot and a line end
-- follow it there, and what is left of the stream is what follows these, however the reads cut it.
pub read_data_stream :
    (max : ℕ) (buf : List ℕ) (ev : List ReadEvent) {bytes : List ℕ}
    → (read_data max buf ev).result ≡ ok bytes
    → let r = read_data max buf ev in
      (raw : List ℕ) × ((dot_unstuff raw ≡ bytes)
        × (buf ++ arriving ev ≡ raw ++ (bare_dot ++ (r.read_buf ++ arriving r.pending))))
unfolding read_data
read_data_stream max buf ev {bytes} e = read_data_from-Conserves max [] buf ev bytes e
