-- ===== src/Server/Reader/Progress.antt =====
-- How much input the loops of Reader leave: crates/sentio-smtp-server/src/session.rs.
use sentio.Common.{
  ℕ, zero, suc, ◌+◌, ◌-◌, ◌*◌, ◌≤◌, ◌<◌, List, [], ◌∷◌, ◌++◌, Option, some, ◌≡◌, arith, take, drop,
  length, min, Result, ok, err, length-drop, inl, inr, Option-cases,
}
use sentio.Server.Reader.{
  ReadEvent, ReadError, got, failed, timed_out, Reading, io, timeout, line_too_long, safe,
  split_line, line_or, read_line, find_terminator, drain_or, drain_until_dot_terminator, data_or,
  read_data_from, read_data, read_rest, read_exact_bytes,
}

-- Two for each read that is still to come, and one for a buffer that is not empty.
abbrev pub input : List ℕ → List ReadEvent → ℕ
input buf ev = 2 * length ev + min 1 (length buf)

abbrev pub input_of : {A : Type 0} → Reading A → ℕ
input_of r = input r.read_buf r.pending

-- What is left, where a line that was too long must have taken something.
abbrev pub Took : {A : Type 0} → Result ReadError A → (left all : ℕ) → Type 0
Took (ok a) left all = left ≤ all
Took (err io) left all = left ≤ all
Took (err timeout) left all = left ≤ all
Took (err line_too_long) left all = left < all

split_line_nonempty : (buf line rest : List ℕ) → split_line buf ≡ some (line, rest) → 0 < length buf
unfolding split_line
split_line_nonempty [] line rest e = cc
split_line_nonempty (c ∷ buf) line rest e = ground arith

line_or-Took :
    (max : ℕ) (buf : List ℕ) (ev : List ReadEvent) (next : Reading (Option (List ℕ)))
    → Took next.result (input_of next) (input buf ev)
    → let r = line_or max buf ev next in Took r.result (input_of r) (input buf ev)
unfolding line_or
line_or-Took max buf ev next h = elim (Option-cases (split_line buf)) [
  | inl e ↦ ground arith
  | inr ((line, rest), e) ↦ ground (arith, split_line_nonempty buf line rest e)
]

Took-mono :
    {A : Type 0} (r : Result ReadError A) (left mid all : ℕ)
    → Took r left mid
    → mid ≤ all
    → Took r left all
Took-mono r left mid all h k = ground arith

pub read_line-Took :
    (max : ℕ) (buf : List ℕ) (ev : List ReadEvent)
    → let r = read_line max buf ev in Took r.result (input_of r) (input buf ev)
unfolding read_line
read_line-Took max buf [] = line_or-Took max buf _ _ (omega arith)
read_line-Took max buf (failed ∷ ev) = line_or-Took max buf _ _ (omega arith)
read_line-Took max buf (timed_out ∷ ev) = line_or-Took max buf _ _ (omega arith)
read_line-Took max buf (got [] ∷ ev) = line_or-Took max buf _ _ (omega arith)
read_line-Took max buf (got (b ∷ bytes) ∷ ev) =
    let next = read_line max (buf ++ b ∷ bytes) ev in
    line_or-Took max buf _ next (
      Took-mono next.result (input_of next) _ _ (read_line-Took max (buf ++ b ∷ bytes) ev)
        (omega arith))

find_terminator_nonempty :
    (buf pre rest : List ℕ) → find_terminator buf ≡ some (pre, rest) → 0 < length buf
unfolding find_terminator
find_terminator_nonempty [] pre rest e = cc
find_terminator_nonempty (c ∷ buf) pre rest e = ground arith

drain_or-input :
    (buf : List ℕ) (ev : List ReadEvent) (next : List ℕ × List ReadEvent)
    → input next.0 next.1 ≤ input buf ev
    → let r = drain_or buf ev next in input r.0 r.1 ≤ input buf ev
drain_or-input buf ev next h = ground arith

drain_until_dot_terminator-input :
    (buf : List ℕ) (ev : List ReadEvent)
    → let r = drain_until_dot_terminator buf ev in input r.0 r.1 ≤ input buf ev
unfolding drain_until_dot_terminator
drain_until_dot_terminator-input buf [] =
    drain_or-input buf _ _ (omega (arith, length-drop (safe buf) buf))
drain_until_dot_terminator-input buf (failed ∷ ev) =
    drain_or-input buf _ _ (omega (arith, length-drop (safe buf) buf))
drain_until_dot_terminator-input buf (timed_out ∷ ev) =
    drain_or-input buf _ _ (omega (arith, length-drop (safe buf) buf))
drain_until_dot_terminator-input buf (got [] ∷ ev) =
    drain_or-input buf _ _ (omega (arith, length-drop (safe buf) buf))
drain_until_dot_terminator-input buf (got (b ∷ bytes) ∷ ev) =
    drain_or-input buf _ _
      (omega (arith, drain_until_dot_terminator-input (drop (safe buf) buf ++ b ∷ bytes) ev))

data_or-input :
    (max : ℕ) (body buf : List ℕ) (ev : List ReadEvent) (next : Reading (List ℕ))
    → input_of next ≤ input buf ev
    → input_of (data_or max body buf ev next) ≤ input buf ev
unfolding data_or
data_or-input max body buf ev next h = elim (Option-cases (find_terminator buf)) [
  | inl e ↦ ground (
    arith,
    drain_until_dot_terminator-input (drop (safe buf) buf) ev,
    length-drop (safe buf) buf,
    length-drop 3 buf,
  )
  | inr ((pre, rest), e) ↦ ground (arith, find_terminator_nonempty buf pre rest e)
]

read_data_from-input :
    (max : ℕ) (body buf : List ℕ) (ev : List ReadEvent)
    → input_of (read_data_from max body buf ev) ≤ input buf ev
unfolding read_data_from
read_data_from-input max body buf [] =
    data_or-input max body buf _ _ (omega (arith, length-drop (safe buf) buf))
read_data_from-input max body buf (failed ∷ ev) =
    data_or-input max body buf _ _ (omega (arith, length-drop (safe buf) buf))
read_data_from-input max body buf (timed_out ∷ ev) =
    data_or-input max body buf _ _ (omega (arith, length-drop (safe buf) buf))
read_data_from-input max body buf (got [] ∷ ev) =
    data_or-input max body buf _ _ (omega (arith, length-drop (safe buf) buf))
read_data_from-input max body buf (got (b ∷ bytes) ∷ ev) = data_or-input max body buf _ _ (
    omega (
      arith,
      read_data_from-input max (body ++ take (safe buf) buf) (drop (safe buf) buf ++ b ∷ bytes) ev,
    ))

pub read_data-input :
    (max : ℕ) (buf : List ℕ) (ev : List ReadEvent) → input_of (read_data max buf ev) ≤ input buf ev
unfolding read_data
read_data-input max buf ev = read_data_from-input max [] buf ev

read_rest-input :
    (n : ℕ) (result buf : List ℕ) (ev : List ReadEvent)
    → input_of (read_rest n result buf ev) ≤ input buf ev
unfolding read_rest
read_rest-input zero result buf ev = omega arith
read_rest-input (suc n) result buf [] = omega arith
read_rest-input (suc n) result buf (failed ∷ ev) = omega arith
read_rest-input (suc n) result buf (timed_out ∷ ev) = omega arith
read_rest-input (suc n) result buf (got [] ∷ ev) = omega arith
read_rest-input (suc n) result buf (got (b ∷ bytes) ∷ ev) = omega (
  arith,
  read_rest-input (suc n - length (b ∷ bytes)) (result ++ take (suc n) (b ∷ bytes))
      (buf ++ drop (suc n) (b ∷ bytes)) ev,
)

pub read_exact_bytes-input :
    (count : ℕ) (buf : List ℕ) (ev : List ReadEvent)
    → input_of (read_exact_bytes count buf ev) ≤ input buf ev
unfolding read_exact_bytes
read_exact_bytes-input count buf ev = omega (
  arith,
  read_rest-input (count - length buf) (take count buf) (drop count buf) ev,
  length-drop count buf,
)
