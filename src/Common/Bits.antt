-- ===== src/Common/Bits.antt =====
-- `|` and `^` on unsigned integers of any width: the law for the lowest digit, and what follows.
use Prim.Native.Nat.{
  ℕ, zero, suc, ◌+◌, ◌*◌, ◌/◌, ◌%◌, ◌≤◌, ◌<◌, ◌^◌, max, bit_or, bit_xor, differ, digits,
  bit_or-bitwise, bit_xor-bitwise,
}
use mathlib.Core.Path.{◌≡◌, refl, ap}
use native.Mathlib.Omega.{arith}

differ_bits : (x y : ℕ) → x < 2 → y < 2 → differ x y ≡ (x + y) % 2
differ_bits zero y p q = omega arith
differ_bits (suc zero) zero p q = refl
differ_bits (suc zero) (suc zero) p q = refl
differ_bits (suc zero) (suc (suc y)) p q = absurd (omega arith)
differ_bits (suc (suc x)) y p q = absurd (omega arith)

max_bits : (x y : ℕ) → x < 2 → y < 2 → max x y ≡ (x + y + 1) / 2
max_bits x y p q = omega arith

-- The recursion over the digits does not depend on its count, if that is enough.
digits_fuel :
    (f : ℕ → ℕ → ℕ) (n m a b : ℕ)
    → a ≤ n
    → a ≤ m
    → digits (λ b. b) f n a b ≡ digits (λ b. b) f m a b
digits_fuel f zero zero a b p q = refl
digits_fuel f zero (suc m) zero b p q = refl
digits_fuel f zero (suc m) (suc a) b p q = absurd (omega arith)
digits_fuel f (suc n) zero zero b p q = refl
digits_fuel f (suc n) zero (suc a) b p q = absurd (omega arith)
digits_fuel f (suc n) (suc m) zero b p q = refl
digits_fuel f (suc n) (suc m) (suc a) b p q =
    omega (arith, digits_fuel f n m (suc a / 2) (b / 2) (omega arith) (omega arith))

zero-bit_xor : (b : ℕ) → bit_xor 0 b ≡ b
zero-bit_xor b = bit_xor-bitwise 0 b

zero-bit_or : (b : ℕ) → bit_or 0 b ≡ b
zero-bit_or b = bit_or-bitwise 0 b

pub bit_xor_step : (a b : ℕ) → bit_xor a b ≡ bit_xor (a / 2) (b / 2) * 2 + (a + b) % 2
bit_xor_step zero b = omega (arith, zero-bit_xor b, zero-bit_xor (b / 2))
bit_xor_step (suc a) b = omega (
  arith,
  bit_xor-bitwise (suc a) b,
  bit_xor-bitwise (suc a / 2) (b / 2),
  digits_fuel differ a (suc a / 2) (suc a / 2) (b / 2) (omega arith) (omega arith),
  differ_bits (suc a % 2) (b % 2) (omega arith) (omega arith),
)

pub bit_or_step : (a b : ℕ) → bit_or a b ≡ bit_or (a / 2) (b / 2) * 2 + (a % 2 + b % 2 + 1) / 2
bit_or_step zero b = omega (arith, zero-bit_or b, zero-bit_or (b / 2))
bit_or_step (suc a) b = omega (
  arith,
  bit_or-bitwise (suc a) b,
  bit_or-bitwise (suc a / 2) (b / 2),
  digits_fuel max a (suc a / 2) (suc a / 2) (b / 2) (omega arith) (omega arith),
  max_bits (suc a % 2) (b % 2) (omega arith) (omega arith),
)

xor_zero_fuel : (n a b : ℕ) → a ≤ n → bit_xor a b ≡ 0 → a ≡ b
xor_zero_fuel zero zero b p h = omega (arith, zero-bit_xor b)
xor_zero_fuel zero (suc a) b p h = absurd (omega arith)
xor_zero_fuel (suc n) zero b p h = omega (arith, zero-bit_xor b)
xor_zero_fuel (suc n) (suc a) b p h =
    let step = bit_xor_step (suc a) b in
    omega (arith, step, xor_zero_fuel n (suc a / 2) (b / 2) (omega arith) (omega (arith, step)))

-- No bit differs just between equal numbers.
pub eq_of-bit_xor-zero : (a b : ℕ) → bit_xor a b ≡ 0 → a ≡ b
eq_of-bit_xor-zero a b h = xor_zero_fuel a a b (omega arith) h

xor_self_fuel : (n a : ℕ) → a ≤ n → bit_xor a a ≡ 0
xor_self_fuel n zero p = zero-bit_xor 0
xor_self_fuel zero (suc a) p = absurd (omega arith)
xor_self_fuel (suc n) (suc a) p =
    omega (arith, bit_xor_step (suc a) (suc a), xor_self_fuel n (suc a / 2) (omega arith))

pub bit_xor_self : (a : ℕ) → bit_xor a a ≡ 0
bit_xor_self a = xor_self_fuel a a (omega arith)

or_zero_fuel : (n a b : ℕ) → a ≤ n → bit_or a b ≡ 0 → (a ≡ 0) × (b ≡ 0)
or_zero_fuel n zero b p h = omega (arith, zero-bit_or b)
or_zero_fuel zero (suc a) b p h = absurd (omega arith)
or_zero_fuel (suc n) (suc a) b p h =
    let step = bit_or_step (suc a) b in
    omega (arith, step, or_zero_fuel n (suc a / 2) (b / 2) (omega arith) (omega (arith, step)))

pub zeros_of-bit_or-zero : (a b : ℕ) → bit_or a b ≡ 0 → (a ≡ 0) × (b ≡ 0)
zeros_of-bit_or-zero a b h = or_zero_fuel a a b (omega arith) h

xor_twice_fuel : (n a b : ℕ) → a ≤ n → b ≤ n → bit_xor (bit_xor a b) b ≡ a
xor_twice_fuel zero zero zero p q = refl
xor_twice_fuel zero zero (suc b) p q = absurd (omega arith)
xor_twice_fuel zero (suc a) b p q = absurd (omega arith)
xor_twice_fuel (suc n) a b p q =
    let inner = bit_xor_step a b in
    let half : bit_xor a b / 2 ≡ bit_xor (a / 2) (b / 2) = omega (arith, inner) in
    omega (
      arith,
      inner,
      bit_xor_step (bit_xor a b) b,
      ap (λ (x : ℕ). bit_xor x (b / 2)) half,
      xor_twice_fuel n (a / 2) (b / 2) (omega arith) (omega arith),
    )

-- A number is recovered from its exclusive or with another one.
pub bit_xor_twice : (a b : ℕ) → bit_xor (bit_xor a b) b ≡ a
bit_xor_twice a b = xor_twice_fuel (a + b) a b (omega arith) (omega arith)

pub bit_or_zeros : bit_or 0 0 ≡ 0
bit_or_zeros = refl

bit_xor_double : (n a b : ℕ) → bit_xor (a / 2) (b / 2) < n → bit_xor a b < n * 2
bit_xor_double n a b h = omega (arith, bit_xor_step a b)

xor_lt_fuel : (k a b : ℕ) → a < 2 ^ k → b < 2 ^ k → bit_xor a b < 2 ^ k
xor_lt_fuel zero a b p q =
    let e : a ≡ 0 = omega arith in
    let f : b ≡ 0 = omega arith in rw e (rw f (omega (arith, zero-bit_xor 0)))
xor_lt_fuel (suc k) a b p q =
    omega (
      arith,
      bit_xor_double (2 ^ k) a b (xor_lt_fuel k (a / 2) (b / 2) (omega arith) (omega arith)),
    )

-- The exclusive or of two bytes is one.
pub bit_xor_byte : (a b : ℕ) → a < 256 → b < 256 → bit_xor a b < 256
bit_xor_byte a b p q = xor_lt_fuel 8 a b p q
