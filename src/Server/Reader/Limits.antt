-- ===== src/Server/Reader/Limits.antt =====
-- What `read_data` of crates/sentio-smtp-server/src/session.rs returns is within the size limit.
use sentio.Common.{
  ℕ, ◌≤◌, List, [], ◌∷◌, ◌++◌, ◌≡◌, subst, arith, take, drop, length, Result, ok, err, inl, inr,
  Option-cases,
}
use sentio.Server.Validation.Laws.{length-dot_unstuff_le}
use sentio.Client.DotStuff.{crlf}
use sentio.Server.Reader.{
  ReadEvent, ReadError, got, failed, timed_out, Reading, safe, finish_data, find_terminator,
  data_or, read_data_from, read_data,
}

abbrev Fits : ℕ → Result ReadError (List ℕ) → Type 0
Fits max (ok bytes) = length bytes ≤ max
Fits max (err e) = Unit

finish_data-Fits : (max : ℕ) (body : List ℕ) → Fits max (finish_data max body)
unfolding finish_data
finish_data-Fits max body = ground (arith, length-dot_unstuff_le body)

data_or-Fits :
    (max : ℕ) (body buf : List ℕ) (ev : List ReadEvent) (next : Reading (List ℕ))
    → Fits max next.result
    → Fits max (data_or max body buf ev next).result
unfolding data_or
data_or-Fits max body buf ev next h = elim (Option-cases (find_terminator buf)) [
  | inl e ↦ ground (arith, finish_data-Fits max body)
  | inr (x, e) ↦ ground (arith, finish_data-Fits max (body ++ (x.0 ++ crlf)))
]

read_data_from-Fits :
    (max : ℕ) (body buf : List ℕ) (ev : List ReadEvent)
    → Fits max (read_data_from max body buf ev).result
unfolding read_data_from
read_data_from-Fits max body buf [] = data_or-Fits max body buf _ _ tt
read_data_from-Fits max body buf (failed ∷ ev) = data_or-Fits max body buf _ _ tt
read_data_from-Fits max body buf (timed_out ∷ ev) = data_or-Fits max body buf _ _ tt
read_data_from-Fits max body buf (got [] ∷ ev) = data_or-Fits max body buf _ _ tt
read_data_from-Fits max body buf (got (b ∷ bytes) ∷ ev) =
    data_or-Fits max body buf _ _
      (read_data_from-Fits max (body ++ take (safe buf) buf) (drop (safe buf) buf ++ b ∷ bytes) ev)

-- The data that is returned is no longer than the limit.
pub length-read_data :
    (max : ℕ) (buf : List ℕ) (ev : List ReadEvent) {bytes : List ℕ}
    → (read_data max buf ev).result ≡ ok bytes
    → length bytes ≤ max
unfolding read_data
length-read_data max buf ev e = subst (Fits max) e (read_data_from-Fits max [] buf ev)
