-- ===== src/Server/Reader/Complete.antt =====
-- `read_line` and `read_exact_bytes` of crates/sentio-smtp-server/src/session.rs return what the
-- stream holds, however the reads cut it.
use sentio.Common.{
  ℕ, zero, suc, ◌-◌, ◌≤◌, List, [], ◌∷◌, ◌++◌, Option, none, some, ◌≡◌, sym, ap, ◌∙◌, arith, take,
  drop, length, ok, inl, inr, Option-cases, append_assoc, append-nil, length-append,
}
use sentio.Server.Reader.{
  ReadEvent, got, failed, timed_out, Reading, split_line, strip_cr, line_or, read_line, read_rest,
  read_exact_bytes,
}
use sentio.Server.Reader.Stream.{arriving, split_line-append}

-- The reading has the line, and leaves the rest of the stream.
abbrev Gives : List ℕ → List ℕ → Reading (Option (List ℕ)) → Type 0
Gives line rest r = (r.result ≡ ok (some line)) × (r.read_buf ++ arriving r.pending ≡ rest)

split_line-none_append :
    (buf more : List ℕ) {raw rest : List ℕ}
    → split_line buf ≡ none
    → split_line (buf ++ more) ≡ some (raw, rest)
    → length buf ≤ length raw
unfolding split_line
split_line-none_append [] more n e = omega arith
split_line-none_append (c ∷ buf) more n e = elim (Option-cases (split_line (buf ++ more))) [
  | inl k ↦ ground arith
  | inr (p, k) ↦ ground (arith, split_line-none_append buf more {raw = p.0} {rest = p.1})
]

line_or-Gives :
    (max : ℕ) (buf : List ℕ) (ev : List ReadEvent) (next : Reading (Option (List ℕ)))
    (raw rest : List ℕ)
    → split_line (buf ++ arriving ev) ≡ some (raw, rest)
    → length raw ≤ max
    → (split_line buf ≡ none → Gives (strip_cr raw) rest next)
    → Gives (strip_cr raw) rest (line_or max buf ev next)
unfolding line_or
line_or-Gives max buf ev next raw rest e fits h = elim (Option-cases (split_line buf)) [
  | inl n ↦ ground (arith, split_line-none_append buf (arriving ev) n e)
  | inr ((raw', rest'), k) ↦ ground (arith, split_line-append buf (arriving ev) k)
]

-- If the stream has a line within the limit, then `read_line` returns it without its line end, and
-- leaves what follows it.
pub read_line_first :
    (max : ℕ) (buf : List ℕ) (ev : List ReadEvent) (raw rest : List ℕ)
    → split_line (buf ++ arriving ev) ≡ some (raw, rest)
    → length raw ≤ max
    → let r = read_line max buf ev in
      (r.result ≡ ok (some (strip_cr raw))) × (r.read_buf ++ arriving r.pending ≡ rest)
unfolding read_line
read_line_first max buf [] raw rest e fits =
    line_or-Gives max buf _ _ raw rest e fits (λ n. ground (arith, append-nil buf))
read_line_first max buf (failed ∷ ev) raw rest e fits =
    line_or-Gives max buf _ _ raw rest e fits (λ n. ground (arith, append-nil buf))
read_line_first max buf (timed_out ∷ ev) raw rest e fits =
    line_or-Gives max buf _ _ raw rest e fits (λ n. ground (arith, append-nil buf))
read_line_first max buf (got [] ∷ ev) raw rest e fits =
    line_or-Gives max buf _ _ raw rest e fits (λ n. ground (arith, append-nil buf))
read_line_first max buf (got (b ∷ bytes) ∷ ev) raw rest e fits =
    line_or-Gives max buf _ _ raw rest e fits (λ n.
      read_line_first max (buf ++ b ∷ bytes) ev raw rest
        (ap split_line (append_assoc buf (b ∷ bytes) (arriving ev)) ∙ e) fits)

-- How a read extends what has been taken.
take-split : (n : ℕ) (xs ys : List ℕ) → take n xs ++ take (n - length xs) ys ≡ take n (xs ++ ys)
take-split zero xs ys = ground arith
take-split (suc n) [] ys = ground arith
take-split (suc n) (x ∷ xs) ys = ground (arith, take-split n xs ys)

read_rest_takes :
    (n : ℕ) (result buf : List ℕ) (ev : List ReadEvent)
    → n ≤ length (arriving ev)
    → (read_rest n result buf ev).result ≡ ok (result ++ take n (arriving ev))
unfolding read_rest
read_rest_takes zero result buf ev h = ap ok (sym (append-nil result))
read_rest_takes (suc n) result buf (got (b ∷ bytes) ∷ ev) h =
    let chunk : List ℕ = b ∷ bytes in
    read_rest_takes (suc n - length chunk) (result ++ take (suc n) chunk)
      (buf ++ drop (suc n) chunk) ev (omega (arith, h, length-append chunk (arriving ev)))
    ∙ ap ok (
        append_assoc result (take (suc n) chunk) (take (suc n - length chunk) (arriving ev))
        ∙ ap (λ c. result ++ c) (take-split (suc n) chunk (arriving ev)))
read_rest_takes (suc n) result buf [] h = ground arith
read_rest_takes (suc n) result buf (failed ∷ ev) h = ground arith
read_rest_takes (suc n) result buf (timed_out ∷ ev) h = ground arith
read_rest_takes (suc n) result buf (got [] ∷ ev) h = ground arith

-- If the stream has as many bytes as are asked for, then `read_exact_bytes` returns its first ones.
pub read_exact_bytes_takes :
    (count : ℕ) (buf : List ℕ) (ev : List ReadEvent)
    → count ≤ length (buf ++ arriving ev)
    → (read_exact_bytes count buf ev).result ≡ ok (take count (buf ++ arriving ev))
unfolding read_exact_bytes
read_exact_bytes_takes count buf ev h =
    read_rest_takes (count - length buf) (take count buf) (drop count buf) ev
      (omega (arith, h, length-append buf (arriving ev)))
    ∙ ap ok (take-split count buf (arriving ev))
