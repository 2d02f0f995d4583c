-- ===== src/Server/Reader/Stream.antt =====
-- `read_line` and `read_exact_bytes` of crates/sentio-smtp-server/src/session.rs read the bytes of
-- the stream in order, however the reads cut it.
use sentio.Common.{
  ℕ, zero, suc, ◌-◌, ◌≤◌, ◌<◌, List, [], ◌∷◌, ◌++◌, Option, none, some, ◌≡◌, refl, sym, ap, subst,
  ◌∙◌, arith, Bool, true, false, ltb, if◌then◌else◌, take, drop, length, ok, err, inl, inr,
  Option-cases, append_assoc, take-append-drop,
}
use sentio.Server.Reader.Exact.{length-read_exact_bytes}
use sentio.Server.Reader.{
  ReadEvent, got, failed, timed_out, Reading, reading, split_line, strip_cr, line_too_long, line_or,
  read_line, read_rest, read_exact_bytes,
}

-- The bytes that the coming reads bring, up to a read that fails.
abbrev pub arriving : List ReadEvent → List ℕ
arriving [] = []
arriving (failed ∷ ev) = []
arriving (timed_out ∷ ev) = []
arriving (got [] ∷ ev) = []
arriving (got (b ∷ bytes) ∷ ev) = (b ∷ bytes) ++ arriving ev

drop-all : (n : ℕ) (xs : List ℕ) → length xs ≤ n → drop n xs ≡ []
drop-all zero [] h = refl
drop-all zero (x ∷ xs) h = ground arith
drop-all (suc n) [] h = refl
drop-all (suc n) (x ∷ xs) h = drop-all n xs (omega (arith, h))

regroup :
    (n : ℕ) (result chunk rest : List ℕ)
    → result ++ (chunk ++ rest) ≡ (result ++ take n chunk) ++ (drop n chunk ++ rest)
regroup n result chunk rest =
    ap (λ c. result ++ (c ++ rest)) (sym (take-append-drop n chunk))
    ∙ ap (λ c. result ++ c) (append_assoc (take n chunk) (drop n chunk) rest)
    ∙ sym (append_assoc result (take n chunk) (drop n chunk ++ rest))

read_rest_stream :
    (n : ℕ) (result buf : List ℕ) (ev : List ReadEvent) {bytes : List ℕ}
    → (0 < n → buf ≡ [])
    → (read_rest n result buf ev).result ≡ ok bytes
    → let r = read_rest n result buf ev in
      result ++ (buf ++ arriving ev) ≡ bytes ++ (r.read_buf ++ arriving r.pending)
unfolding read_rest
read_rest_stream zero result buf ev h e = cc
read_rest_stream (suc n) result buf (got (b ∷ bytes) ∷ ev) h e =
    let chunk : List ℕ = b ∷ bytes in
    let empty = h (omega arith) in
    ap (λ c. result ++ (c ++ (chunk ++ arriving ev))) empty
    ∙ regroup (suc n) result chunk (arriving ev)
    ∙ ap (λ c. (result ++ take (suc n) chunk) ++ ((c ++ drop (suc n) chunk) ++ arriving ev))
        (sym empty)
    ∙ read_rest_stream (suc n - length chunk) (result ++ take (suc n) chunk)
        (buf ++ drop (suc n) chunk) ev
        (λ k. ap (λ c. c ++ drop (suc n) chunk) empty ∙ drop-all (suc n) chunk (omega (arith, k))) e
read_rest_stream (suc n) result buf _ h e = cc

-- The bytes of a chunk are the next ones of the stream, and what is left starts behind them.
pub read_exact_bytes_stream :
    (count : ℕ) (buf : List ℕ) (ev : List ReadEvent) {bytes : List ℕ}
    → (read_exact_bytes count buf ev).result ≡ ok bytes
    → let r = read_exact_bytes count buf ev in
      (length bytes ≡ count) × (buf ++ arriving ev ≡ bytes ++ (r.read_buf ++ arriving r.pending))
unfolding read_exact_bytes
read_exact_bytes_stream count buf ev e = (
  length-read_exact_bytes count buf ev e,
  regroup count [] buf (arriving ev)
      ∙ read_rest_stream (count - length buf) (take count buf) (drop count buf) ev
          (λ k. drop-all count buf (omega (arith, k))) e,
)

pub split_line-append :
    (buf more : List ℕ) {line rest : List ℕ}
    → split_line buf ≡ some (line, rest)
    → split_line (buf ++ more) ≡ some (line, rest ++ more)
unfolding split_line
split_line-append [] more e = cc
split_line-append (c ∷ buf) more e = elim (Option-cases (split_line buf)) [
  | inl n ↦ ground arith
  | inr ((line, rest), k) ↦ ground (arith, split_line-append buf more k)
]

-- What a reading says of the stream: the line is the first one, and the rest is what is left.
abbrev pub Reads : List ℕ → Reading (Option (List ℕ)) → Type 0
Reads stream r =
    (line : List ℕ)
    → r.result ≡ ok (some line)
    → (raw : List ℕ) × ((strip_cr raw ≡ line)
        × (split_line stream ≡ some (raw, r.read_buf ++ arriving r.pending)))

line_or-Reads :
    (max : ℕ) (buf : List ℕ) (ev : List ReadEvent) (next : Reading (Option (List ℕ)))
    → Reads (buf ++ arriving ev) next
    → Reads (buf ++ arriving ev) (line_or max buf ev next)
unfolding line_or
line_or-Reads max buf ev next h = chosen (split_line buf) refl
  where
    short :
        (b : Bool)
        → Reads (buf ++ arriving ev) (if b then reading (err line_too_long) [] ev else next)
    short true line e = cc
    short false line e = h line e

    chosen :
        (o : Option (List ℕ × List ℕ))
        → split_line buf ≡ o
        → Reads (buf ++ arriving ev) (elim o as (λ _. Reading (Option (List ℕ))) [
          | some (line, rest) ↦ reading (ok (some (strip_cr line))) rest ev
          | none ↦ if ltb max (length buf) then reading (err line_too_long) [] ev else next
        ])
    chosen none k = λ line e. short (ltb max (length buf)) line e
    chosen (some (raw, rest)) k = λ line e. (raw, (cc, split_line-append buf (arriving ev) k))

read_line-Reads :
    (max : ℕ) (buf : List ℕ) (ev : List ReadEvent)
    → Reads (buf ++ arriving ev) (read_line max buf ev)
unfolding read_line
read_line-Reads max buf [] = line_or-Reads max buf _ _ (λ line e. cc)
read_line-Reads max buf (failed ∷ ev) = line_or-Reads max buf _ _ (λ line e. cc)
read_line-Reads max buf (timed_out ∷ ev) = line_or-Reads max buf _ _ (λ line e. cc)
read_line-Reads max buf (got [] ∷ ev) = line_or-Reads max buf _ _ (λ line e. cc)
read_line-Reads max buf (got (b ∷ bytes) ∷ ev) =
    line_or-Reads max buf _ (read_line max (buf ++ b ∷ bytes) ev) (
      subst (λ stream. Reads stream (read_line max (buf ++ b ∷ bytes) ev))
        (append_assoc buf (b ∷ bytes) (arriving ev)) (read_line-Reads max (buf ++ b ∷ bytes) ev))

-- A line that is returned is the first one of the stream, less its line end, and what is left
-- starts behind it.
pub read_line_stream :
    (max : ℕ) (buf : List ℕ) (ev : List ReadEvent) {line : List ℕ}
    → (read_line max buf ev).result ≡ ok (some line)
    → let r = read_line max buf ev in
      (raw : List ℕ) × ((strip_cr raw ≡ line)
        × (split_line (buf ++ arriving ev) ≡ some (raw, r.read_buf ++ arriving r.pending)))
read_line_stream max buf ev {line} e = read_line-Reads max buf ev line e
