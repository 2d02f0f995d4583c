-- ===== src/Common/Text/Lines.antt =====
-- `lines`, `ends_with`, `contains` of a string, and lower case.
use sentio.Common.Lists.{All, All-map}
use sentio.Common.Text.{Text, same, same_iff, same_refl, starts_with}
use sentio.Common.Tests.{leb, ◌==◌, if◌then◌else◌, Bool-cases}
use Prim.Native.Nat.{ℕ, ◌+◌}
use mathlib.Core.Path.{◌≡◌, refl, sym, ap, ◌∙◌}
use mathlib.Core.Logic.{◌≢◌, inl, inr}
use mathlib.Core.Bool.{Bool, true, ◌&&◌, ◌||◌}
use mathlib.Core.List.{List, [], ◌∷◌, ◌++◌, append_assoc, append-nil}
use native.Mathlib.Omega.{arith}

-- A carriage return at the end of a line is cut off.
unfoldable pub strip_cr : Text → Text
strip_cr [] = []
strip_cr (c ∷ []) = if c == b'\r' then [] else c ∷ []
strip_cr (c ∷ d ∷ s) = c ∷ strip_cr (d ∷ s)

-- `lines`, with the line so far; what no line feed ends keeps its carriage return.
unfoldable pub lines_from : (line : Text) → Text → List Text
lines_from [] [] = []
lines_from (c ∷ line) [] = (c ∷ line) ∷ []
lines_from line (c ∷ s) =
    let next = lines_from [] s in
    let more = lines_from (line ++ c ∷ []) s in if c == b'\n' then strip_cr line ∷ next else more

unfoldable pub lines : Text → List Text
lines s = lines_from [] s

unfoldable pub ends_with : (suffix : Text) → Text → Bool
ends_with suffix [] = same suffix []
ends_with suffix (c ∷ s) = same suffix (c ∷ s) || ends_with suffix s

unfoldable pub contains_text : (needle : Text) → Text → Bool
contains_text needle [] = starts_with needle []
contains_text needle (c ∷ s) = starts_with needle (c ∷ s) || contains_text needle s

unfoldable pub to_ascii_lower : ℕ → ℕ
to_ascii_lower c = if leb b'A' c && leb c b'Z' then c + 32 else c

unfoldable pub to_ascii_lowercase : Text → Text
to_ascii_lowercase [] = []
to_ascii_lowercase (c ∷ s) = to_ascii_lower c ∷ to_ascii_lowercase s

lines_from-append :
    (line s more : Text)
    → All (λ c. c ≢ b'\n') s
    → lines_from line (s ++ b'\n' ∷ more) ≡ strip_cr (line ++ s) ∷ lines more
unfolding lines_from lines
lines_from-append [] [] more h = ground arith
lines_from-append (d ∷ line) [] more h = rw (append-nil line) refl
lines_from-append [] (c ∷ s) more h = ground (arith, lines_from-append (c ∷ []) s more h.1)
lines_from-append (d ∷ line) (c ∷ s) more h =
    ground (
      arith,
      lines_from-append ((d ∷ line) ++ c ∷ []) s more h.1,
      append_assoc (d ∷ line) (c ∷ []) s,
    )

strip_cr_none : (s : Text) → All (λ c. c ≢ b'\r') s → strip_cr s ≡ s
unfolding strip_cr
strip_cr_none [] h = refl
strip_cr_none (c ∷ []) h = ground (arith, h.0)
strip_cr_none (c ∷ d ∷ s) h = ap (◌∷◌ c) (strip_cr_none (d ∷ s) h.1)

pub lines-append :
    (s more : Text)
    → All (λ c. (c ≢ b'\n') × (c ≢ b'\r')) s
    → lines (s ++ b'\n' ∷ more) ≡ s ∷ lines more
unfolding lines
lines-append s more h =
    lines_from-append [] s more (All-map _ _ s (λ c p. p.0) h)
    ∙ ap (λ line. line ∷ lines more) (strip_cr_none s (All-map _ _ s (λ c p. p.1) h))

-- A text ends with another one just when it is some text in front of it.
pub ends_with-append : (front suffix : Text) → ends_with suffix (front ++ suffix) ≡ true
unfolding ends_with
ends_with-append [] [] = same_refl []
ends_with-append [] (c ∷ s) = ground (arith, same_refl (c ∷ s))
ends_with-append (d ∷ front) suffix = ground (arith, ends_with-append front suffix)

pub ends_with_front :
    (suffix s : Text) → ends_with suffix s ≡ true → (front : Text) × (s ≡ front ++ suffix)
unfolding ends_with
ends_with_front suffix [] e = ([], sym ((same_iff suffix []).0 e))
ends_with_front suffix (c ∷ s) e = elim (Bool-cases (same suffix (c ∷ s))) [
  | inl t ↦ ([], sym ((same_iff suffix (c ∷ s)).0 t))
  | inr f ↦
      (let rest = ends_with_front suffix s (ground (arith, e, f)) in
        (c ∷ rest.0, ap (◌∷◌ c) rest.1))
]
