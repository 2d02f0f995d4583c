-- ===== src/Common/Text/Laws.antt =====
-- Laws of the operations on strings.
use sentio.Common.Lists.{length, All}
use sentio.Common.Text.{
  Text, starts_with, find, split_once, len, is_whitespace, trim_start, trim_end, trim,
  to_ascii_upper, to_ascii_uppercase,
}
use Prim.Native.Nat.{ℕ, ◌<◌}
use mathlib.Core.Path.{◌≡◌, refl}
use mathlib.Core.Logic.{◌≢◌}
use mathlib.Core.Bool.{true, false}
use mathlib.Core.Option.{some}
use mathlib.Core.List.{[], ◌∷◌, ◌++◌}
use native.Mathlib.Omega.{arith}

-- A text that ends in another character than a space keeps its end.
pub trim_end_fixed :
    (s : Text) (c : ℕ) → is_whitespace c ≡ false → trim_end (s ++ c ∷ []) ≡ s ++ c ∷ []
unfolding trim_end
trim_end_fixed [] c h = ground arith
trim_end_fixed (a ∷ []) c h = ground arith
trim_end_fixed (a ∷ b ∷ s) c h = ground (arith, trim_end_fixed (b ∷ s) c h)

-- A text without spaces is its own `trim`.
pub trim_end_words : (s : Text) → All (λ c. is_whitespace c ≡ false) s → trim_end s ≡ s
unfolding trim_end
trim_end_words [] h = refl
trim_end_words (c ∷ s) h = ground (arith, trim_end_words s h.1)

pub trim_words : (s : Text) → All (λ c. is_whitespace c ≡ false) s → trim s ≡ s
unfolding trim trim_start
trim_words [] h = ground (arith, trim_end_words [] h)
trim_words (c ∷ s) h = ground (arith, trim_end_words (c ∷ s) h)

-- At the first occurrence.
pub split_once-append :
    (c : ℕ) (s more : Text) → All (λ a. a ≢ c) s → split_once c (s ++ c ∷ more) ≡ some (s, more)
unfolding split_once
split_once-append c [] more h = ground arith
split_once-append c (a ∷ s) more h = ground (arith, split_once-append c s more h.1)

pub find-append :
    (c : ℕ) (s more : Text) → All (λ a. a ≢ c) s → find c (s ++ c ∷ more) ≡ some (length s)
unfolding find
find-append c [] more h = ground arith
find-append c (a ∷ s) more h = ground (arith, find-append c s more h.1)

-- What a text is that is some word when it is in upper case.
pub to_ascii_upper_low : (c : ℕ) → to_ascii_upper c < 0x80 → c < 0x80
unfolding to_ascii_upper
to_ascii_upper_low c h = ground arith

pub to_ascii_uppercase_low :
    (s : Text) → All (λ c. c < 0x80) (to_ascii_uppercase s) → All (λ c. c < 0x80) s
unfolding to_ascii_uppercase
to_ascii_uppercase_low [] h = tt
to_ascii_uppercase_low (c ∷ s) h = (to_ascii_upper_low c h.0, to_ascii_uppercase_low s h.1)

to_ascii_upper_space : (c : ℕ) → to_ascii_upper c ≢ 32 → c ≢ 32
unfolding to_ascii_upper
to_ascii_upper_space c h = ground arith

pub to_ascii_uppercase_spaces :
    (s : Text) → All (λ c. c ≢ 32) (to_ascii_uppercase s) → All (λ c. c ≢ 32) s
unfolding to_ascii_uppercase
to_ascii_uppercase_spaces [] h = tt
to_ascii_uppercase_spaces (c ∷ s) h = (to_ascii_upper_space c h.0, to_ascii_uppercase_spaces s h.1)

pub to_ascii_uppercase-append :
    (s more : Text)
    → to_ascii_uppercase (s ++ more) ≡ to_ascii_uppercase s ++ to_ascii_uppercase more
unfolding to_ascii_uppercase
to_ascii_uppercase-append [] more = refl
to_ascii_uppercase-append (c ∷ s) more = ground (arith, to_ascii_uppercase-append s more)

pub starts_with-append : (s more : Text) → starts_with s (s ++ more) ≡ true
unfolding starts_with
starts_with-append [] more = refl
starts_with-append (c ∷ s) more = ground (arith, starts_with-append s more)

pub length-to_ascii_uppercase : (s : Text) → length (to_ascii_uppercase s) ≡ length s
unfolding to_ascii_uppercase
length-to_ascii_uppercase [] = refl
length-to_ascii_uppercase (c ∷ s) = ground (arith, length-to_ascii_uppercase s)

-- The length of an ASCII text in bytes.
pub len_ascii : (s : Text) → All (λ c. c < 0x80) s → len s ≡ length s
unfolding len
len_ascii [] h = refl
len_ascii (c ∷ s) h = ground (arith, len_ascii s h.1)
