-- ===== src/Common/Text.antt =====
-- Rust's `&str` as the list of its code points, and the operations of the standard library on it
-- that the sources call.
pub mod Laws
pub mod Numbers
pub mod Words
pub mod Pieces
pub mod Signed
pub mod Lines
pub mod Rsplit
use Prim.Native.Nat.{ℕ, zero, suc, ◌+◌, ◌-◌, ◌*◌, ◌/◌, ◌%◌, ◌^◌}
use Prim.Native.Char.{code}
use Prim.Native.String.{String}
use mathlib.Core.Path.{◌≡◌, refl}
use mathlib.Core.Logic.{◌↔◌}
use mathlib.Core.Bool.{Bool, true, false, ◌&&◌, ◌||◌}
use mathlib.Core.Option.{Option, none, some}
use mathlib.Core.List.{List, [], ◌∷◌, map, reverse}
use native.Mathlib.Omega.{arith}
use sentio.Common.Tests.{ltb, leb, ◌==◌, if◌then◌else◌}

abbrev pub Text : Type 0
Text = List ℕ

abbrev pub codes : String → Text
codes String.[] = []
codes (String.◌∷◌ c s) = code c ∷ codes s

-- `==` on strings and on byte slices.
unfoldable pub same : Text → Text → Bool
same [] [] = true
same (x ∷ xs) (y ∷ ys) = x == y && same xs ys
same _ _ = false

pub same_iff : (xs ys : Text) → (same xs ys ≡ true) ↔ (xs ≡ ys)
unfolding same
same_iff (x ∷ xs) (y ∷ ys) = ground (arith, same_iff xs ys)
same_iff _ _ = ground arith

pub same_refl : (xs : Text) → same xs xs ≡ true
same_refl xs = (same_iff xs xs).1 refl

unfoldable pub is_empty : Text → Bool
is_empty [] = true
is_empty (x ∷ xs) = false

unfoldable pub starts_with : Text → Text → Bool
starts_with [] s = true
starts_with (p ∷ ps) [] = false
starts_with (p ∷ ps) (c ∷ s) = p == c && starts_with ps s

unfoldable pub strip_prefix : Text → Text → Option Text
strip_prefix [] s = some s
strip_prefix (p ∷ ps) [] = none
strip_prefix (p ∷ ps) (c ∷ s) = if p == c then strip_prefix ps s else none

-- `find(char)`: the index of the first occurrence.
unfoldable pub find : ℕ → Text → Option ℕ
find c [] = none
find c (x ∷ s) = if x == c then some 0 else elim (find c s) [ none ↦ none | some i ↦ some (suc i) ]

unfoldable pub contains : ℕ → Text → Bool
contains c [] = false
contains c (x ∷ s) = x == c || contains c s

-- `split_once(char)`.
unfoldable pub split_once : ℕ → Text → Option (Text × Text)
split_once c [] = none
split_once c (x ∷ s) =
    if x == c
    then some ([], s)
    else elim (split_once c s) [ none ↦ none | some (a, b) ↦ some (x ∷ a, b) ]

-- `rsplit_once(char)`: at the last occurrence.
unfoldable pub rsplit_once : ℕ → Text → Option (Text × Text)
rsplit_once c [] = none
rsplit_once c (x ∷ s) = elim (rsplit_once c s) [
  | some (a, b) ↦ some (x ∷ a, b)
  | none ↦ if x == c then some ([], s) else none
]

-- `split(char)`: the pieces between the separators, empty ones included.
unfoldable pub split : ℕ → Text → List Text
split c [] = [] ∷ []
split c (x ∷ s) = elim (split c s) [
  | [] ↦ []
  | piece ∷ rest ↦ if x == c then [] ∷ piece ∷ rest else (x ∷ piece) ∷ rest
]

-- Unicode `White_Space`, by which `trim` and `split_whitespace` cut.
unfoldable pub is_whitespace : ℕ → Bool
is_whitespace c =
    (leb 9 c && leb c 13)
    || c == 32
    || c == 0x85
    || c == 0xa0
    || c == 0x1680
    || (leb 0x2000 c && leb c 0x200a)
    || c == 0x2028
    || c == 0x2029
    || c == 0x202f
    || c == 0x205f
    || c == 0x3000

unfoldable pub trim_start : Text → Text
trim_start [] = []
trim_start (c ∷ s) = if is_whitespace c then trim_start s else c ∷ s

unfoldable pub trim_end : Text → Text
trim_end [] = []
trim_end (c ∷ s) = elim (trim_end s) [
  | [] ↦ if is_whitespace c then [] else c ∷ []
  | d ∷ r ↦ c ∷ d ∷ r
]

unfoldable pub trim : Text → Text
unfolding trim_start trim_end
trim s = trim_start (trim_end s)

-- `split_whitespace`: the maximal runs of other characters.
unfoldable pub words_from : Text → Text → List Text
unfolding is_whitespace
words_from [] [] = []
words_from (w ∷ cur) [] = reverse (w ∷ cur) ∷ []
words_from [] (c ∷ s) = words_from (if is_whitespace c then [] else c ∷ []) s
words_from (w ∷ cur) (c ∷ s) =
    let cut = reverse (w ∷ cur) ∷ words_from [] s in
    let more = words_from (c ∷ w ∷ cur) s in if is_whitespace c then cut else more

unfoldable pub split_whitespace : Text → List Text
unfolding words_from
split_whitespace s = words_from [] s

unfoldable pub to_ascii_upper : ℕ → ℕ
to_ascii_upper c = if leb b'a' c && leb c b'z' then c - 32 else c

unfoldable pub to_ascii_uppercase : Text → Text
unfolding to_ascii_upper
to_ascii_uppercase s = map to_ascii_upper s

unfoldable pub eq_ignore_ascii_case : Text → Text → Bool
unfolding to_ascii_uppercase same
eq_ignore_ascii_case a b = same (to_ascii_uppercase a) (to_ascii_uppercase b)

pub to_ascii_upper_idem : (c : ℕ) → to_ascii_upper (to_ascii_upper c) ≡ to_ascii_upper c
unfolding to_ascii_upper
to_ascii_upper_idem c = ground arith

-- `Display` of an unsigned integer. The number is fuel enough, since each round divides it by ten.
unfoldable pub decimal_from : ℕ → ℕ → Text → Text
decimal_from zero n acc = acc
decimal_from (suc f) n acc =
    let digit = b'0' + n % 10 in
    let more = decimal_from f (n / 10) (digit ∷ acc) in if ltb n 10 then digit ∷ acc else more

unfoldable pub decimal : ℕ → Text
unfolding decimal_from
decimal n = decimal_from (suc n) n []

-- The digits of `parse::<uN>()`: the accumulator must stay below `limit`.
unfoldable pub parse_digits : ℕ → ℕ → Text → Option ℕ
parse_digits limit acc [] = some acc
parse_digits limit acc (c ∷ s) =
    let next = acc * 10 + (c - b'0') in
    let rest = parse_digits limit next s in
    if leb b'0' c && leb c b'9' && ltb next limit then rest else none

-- `parse::<uN>()` of a text, with `limit = 2 ^ N`: an optional `+`, then digits, one at least.
unfoldable pub parse_unsigned : ℕ → Text → Option ℕ
unfolding parse_digits
parse_unsigned limit [] = none
parse_unsigned limit (c ∷ []) = if c == b'+' then none else parse_digits limit 0 (c ∷ [])
parse_unsigned limit (c ∷ d ∷ s) =
    if c == b'+' then parse_digits limit 0 (d ∷ s) else parse_digits limit 0 (c ∷ d ∷ s)

abbrev pub u64_mod : ℕ
u64_mod = 2 ^ 64

abbrev pub utf8_width : ℕ → ℕ
utf8_width c = if ltb c 0x80 then 1 else if ltb c 0x800 then 2 else if ltb c 0x10000 then 3 else 4

-- `len()`, in bytes of UTF-8.
unfoldable pub len : Text → ℕ
len [] = 0
len (c ∷ s) = utf8_width c + len s
