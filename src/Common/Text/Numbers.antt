-- ===== src/Common/Text/Numbers.antt =====
-- `Display` and `parse` of an unsigned integer are inverse.
use sentio.Common.Lists.{All}
use sentio.Common.Tests.{leb, lt→ltb}
use sentio.Common.Text.Signed.{sub_i64, ge_i64, parse_i64, show_i64}
use sentio.Common.Text.{Text, decimal_from, decimal, parse_digits, parse_unsigned}
use Prim.Native.Nat.{ℕ, zero, suc, ◌+◌, ◌/◌, ◌%◌, ◌^◌, ◌<◌, ◌≤◌}
use mathlib.Core.Path.{◌≡◌, refl, ◌∙◌}
use mathlib.Core.Logic.{◌≢◌}
use mathlib.Core.Option.{some}
use mathlib.Core.List.{[], ◌∷◌}
use native.Mathlib.Omega.{arith}

parse_digits-decimal_from :
    (limit f n : ℕ) (acc : Text)
    → n < f
    → n < limit
    → parse_digits limit 0 (decimal_from f n acc) ≡ parse_digits limit n acc
unfolding parse_digits decimal_from
parse_digits-decimal_from limit zero n acc h k = ground arith
parse_digits-decimal_from limit (suc f) n acc h k = ground (
  arith,
  λ (large : 10 ≤ n).
      parse_digits-decimal_from limit f (n / 10) ((b'0' + n % 10) ∷ acc) (omega (arith, h, large))
        (omega (arith, k)),
)

-- A digit.
abbrev pub IsDigit : ℕ → Type 0
IsDigit c = (b'0' ≤ c) × (c ≤ b'9')

decimal_from-digits : (f n : ℕ) (acc : Text) → All IsDigit acc → All IsDigit (decimal_from f n acc)
unfolding decimal_from
decimal_from-digits zero n acc h = h
decimal_from-digits (suc f) n acc h =
    ground (arith, decimal_from-digits f (n / 10) ((b'0' + n % 10) ∷ acc) (omega arith, h))

decimal_from_nonempty : (f n c : ℕ) (acc : Text) → decimal_from f n (c ∷ acc) ≢ []
unfolding decimal_from
decimal_from_nonempty zero n c acc e = ground arith
decimal_from_nonempty (suc f) n c acc e =
    ground (arith, e, decimal_from_nonempty f (n / 10) (b'0' + n % 10) (c ∷ acc))

pub decimal_nonempty : (n : ℕ) → decimal n ≢ []
unfolding decimal decimal_from
decimal_nonempty n e = ground (arith, e, decimal_from_nonempty n (n / 10) (b'0' + n % 10) [])

pub decimal-digits : (n : ℕ) → All IsDigit (decimal n)
unfolding decimal
decimal-digits n = decimal_from-digits (suc n) n [] tt

parse_unsigned-digits :
    (limit : ℕ) (s : Text)
    → All IsDigit s
    → s ≢ []
    → parse_unsigned limit s ≡ parse_digits limit 0 s
unfolding parse_unsigned
parse_unsigned-digits limit [] h n = ground (arith, n)
parse_unsigned-digits limit (c ∷ []) h n = ground (arith, h.0)
parse_unsigned-digits limit (c ∷ d ∷ s) h n = ground (arith, h.0)

-- A number below the limit of its type is read back from its decimal form.
pub parse_unsigned-decimal : (limit n : ℕ) → n < limit → parse_unsigned limit (decimal n) ≡ some n
parse_unsigned-decimal limit n h =
    parse_unsigned-digits limit (decimal n) (decimal-digits n) (decimal_nonempty n) ∙ read
  where
    read : parse_digits limit 0 (decimal n) ≡ some n
    read =
        unfold decimal parse_digits in parse_digits-decimal_from limit (suc n) n [] (omega arith) h

parse_i64-digits : (s : Text) → All IsDigit s → s ≢ [] → parse_i64 s ≡ parse_unsigned (2 ^ 63) s
unfolding parse_i64
parse_i64-digits [] h n = ground (arith, n)
parse_i64-digits (c ∷ []) h n = refl
parse_i64-digits (c ∷ d ∷ s) h n = ground (arith, h.0)

-- So is an `i64` that is not negative.
pub parse_i64-show_i64 : (n : ℕ) → n < 2 ^ 63 → parse_i64 (show_i64 n) ≡ some n
unfolding show_i64
parse_i64-show_i64 n h = rw (lt→ltb n (2 ^ 63) h) (
    parse_i64-digits (decimal n) (decimal-digits n) (decimal_nonempty n)
    ∙ parse_unsigned-decimal (2 ^ 63) n h)

-- The difference of two times that are not negative, against a bound that is not negative.
pub ge_i64-sub_i64 :
    (a b c : ℕ) → b ≤ a → a < 2 ^ 63 → c < 2 ^ 63 → ge_i64 (sub_i64 a b) c ≡ leb (b + c) a
unfolding ge_i64 sub_i64
ge_i64-sub_i64 a b c h k l = ground arith
