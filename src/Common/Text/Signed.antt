-- ===== src/Common/Text/Signed.antt =====
-- `i64`: numbers below 2^64 in two's complement, with what the sources do with them.
use sentio.Common.Tests.{ltb, leb, ◌==◌, if◌then◌else◌}
use sentio.Common.Text.{Text, decimal, parse_digits, parse_unsigned}
use Prim.Native.Nat.{ℕ, ◌+◌, ◌-◌, ◌%◌, ◌^◌}
use mathlib.Core.Bool.{Bool}
use mathlib.Core.Option.{Option, none, some}
use mathlib.Core.List.{[], ◌∷◌}

-- The subtraction of a release build, which wraps around.
unfoldable pub sub_i64 : ℕ → ℕ → ℕ
sub_i64 a b = (a + 2 ^ 64 - b) % 2 ^ 64

-- `a >= b`.
unfoldable pub ge_i64 : ℕ → ℕ → Bool
ge_i64 a b = leb ((b + 2 ^ 63) % 2 ^ 64) ((a + 2 ^ 63) % 2 ^ 64)

unfoldable pub negated : Option ℕ → Option ℕ
negated none = none
negated (some n) = some ((2 ^ 64 - n) % 2 ^ 64)

-- `parse::<i64>()`: a minus sign and digits up to 2^63, or an unsigned number below 2^63.
unfoldable pub parse_i64 : Text → Option ℕ
unfolding negated
parse_i64 [] = none
parse_i64 (c ∷ []) = parse_unsigned (2 ^ 63) (c ∷ [])
parse_i64 (c ∷ d ∷ s) =
    if c == b'-'
    then negated (parse_digits (2 ^ 63 + 1) 0 (d ∷ s))
    else parse_unsigned (2 ^ 63) (c ∷ d ∷ s)

-- `Display`.
unfoldable pub show_i64 : ℕ → Text
show_i64 n = if ltb n (2 ^ 63) then decimal n else b'-' ∷ decimal (2 ^ 64 - n)
