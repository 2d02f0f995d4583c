-- ===== src/Server/Auth/Bytes.antt =====
-- The comparison of byte strings in constant time, of crates/sentio-smtp-server/src/auth.rs, and
-- the key that a proof carries.
use Prim.Native.Nat.{bit_or, bit_xor}
use sentio.Common.{ℕ, true, List, [], ◌∷◌, length, ◌≡◌, ◌↔◌, refl, arith}
use sentio.Common.Bits.{
  eq_of-bit_xor-zero, bit_xor_self, zeros_of-bit_or-zero, bit_or_zeros, bit_xor_twice,
}
use sentio.Server.Auth.Types.{differences, constant_time_eq}
use sentio.Server.Auth.ScramFinal.{xor_bytes}

differences_zero :
    (diff : ℕ) (xs ys : List ℕ)
    → length xs ≡ length ys
    → differences diff xs ys ≡ 0
    → (diff ≡ 0) × (xs ≡ ys)
unfolding differences
differences_zero diff [] [] e h = (h, refl)
differences_zero diff [] (y ∷ ys) e h = absurd (omega arith)
differences_zero diff (x ∷ xs) [] e h = absurd (omega arith)
differences_zero diff (x ∷ xs) (y ∷ ys) e h =
    let rest = differences_zero (bit_or diff (bit_xor x y)) xs ys (omega arith) h in
    let zeros = zeros_of-bit_or-zero diff (bit_xor x y) rest.0 in
    (zeros.0, ground (arith, eq_of-bit_xor-zero x y zeros.1))

differences_self : (xs : List ℕ) → differences 0 xs xs ≡ 0
unfolding differences
differences_self [] = refl
differences_self (x ∷ xs) = rw (bit_xor_self x) (rw bit_or_zeros (differences_self xs))

-- The comparison is equality.
pub constant_time_eq_iff : (xs ys : List ℕ) → (constant_time_eq xs ys ≡ true) ↔ (xs ≡ ys)
unfolding constant_time_eq
constant_time_eq_iff xs ys = (
  λ h. (differences_zero 0 xs ys (ground arith) (ground arith)).1,
  λ e. rw e (ground (arith, differences_self ys)),
)

-- The key comes back from the proof that was made of it.
pub xor_bytes_twice :
    (key signature : List ℕ)
    → length key ≡ length signature
    → xor_bytes (xor_bytes key signature) signature ≡ key
unfolding xor_bytes
xor_bytes_twice [] [] e = refl
xor_bytes_twice [] (s ∷ signature) e = refl
xor_bytes_twice (k ∷ key) [] e = absurd (omega arith)
xor_bytes_twice (k ∷ key) (s ∷ signature) e =
    ground (arith, bit_xor_twice k s, xor_bytes_twice key signature (omega arith))

pub length-xor_bytes :
    (key signature : List ℕ)
    → length key ≡ length signature
    → length (xor_bytes key signature) ≡ length signature
unfolding xor_bytes
length-xor_bytes [] [] e = refl
length-xor_bytes [] (s ∷ signature) e = absurd (omega arith)
length-xor_bytes (k ∷ key) [] e = absurd (omega arith)
length-xor_bytes (k ∷ key) (s ∷ signature) e =
    omega (arith, length-xor_bytes key signature (omega arith))
