-- ===== src/Common/Utf8/Encode.antt =====
-- The bytes of a text, `str::as_bytes`, and that they decode to it.
use Prim.Native.Nat.{ℕ, ◌+◌, ◌/◌, ◌%◌, ◌≤◌, ◌<◌}
use mathlib.Core.Path.{◌≡◌, refl}
use mathlib.Core.Logic.{◌⊎◌}
use mathlib.Core.Option.{some}
use mathlib.Core.List.{List, [], ◌∷◌}
use native.Mathlib.Omega.{arith}
use sentio.Common.Tests.{ltb, if◌then◌else◌}
use sentio.Common.Lists.{All}
use sentio.Common.Text.{Text}
use sentio.Common.Utf8.{between, first_byte, next_byte, utf8_step, utf8_run, cons_text, from_utf8}

-- `char::encode_utf8`, in front of more bytes.
unfoldable pub encode_char : ℕ → List ℕ → List ℕ
encode_char c bytes =
    if ltb c 0x80
    then c ∷ bytes
    else if ltb c 0x800
    then (0xc0 + c / 64) ∷ (0x80 + c % 64) ∷ bytes
    else if ltb c 0x10000
    then (0xe0 + c / 4096) ∷ (0x80 + c / 64 % 64) ∷ (0x80 + c % 64) ∷ bytes
    else (0xf0 + c / 262_144)
      ∷ (0x80 + c / 4096 % 64)
      ∷ (0x80 + c / 64 % 64)
      ∷ (0x80 + c % 64)
      ∷ bytes

unfoldable pub to_utf8 : Text → List ℕ
unfolding encode_char
to_utf8 [] = []
to_utf8 (c ∷ s) = encode_char c (to_utf8 s)

-- A `char`: a code point that is no surrogate.
abbrev pub IsScalar : ℕ → Type 0
IsScalar c = (c < 0xd800) ⊎ ((0xe000 ≤ c) × (c < 0x110000))

-- ASCII text is its own encoding.
pub to_utf8_ascii : (s : Text) → All (λ c. c < 0x80) s → to_utf8 s ≡ s
unfolding to_utf8
to_utf8_ascii [] h = refl
to_utf8_ascii (c ∷ s) h = ground (arith, to_utf8_ascii s h.1)

utf8_run-encode_char :
    (c : ℕ) (bytes : List ℕ)
    → IsScalar c
    → utf8_run between (encode_char c bytes) ≡ cons_text c (utf8_run between bytes)
unfolding utf8_run utf8_step first_byte next_byte encode_char
utf8_run-encode_char c bytes h = ground arith

pub from_utf8-to_utf8 : (s : Text) → All IsScalar s → from_utf8 (to_utf8 s) ≡ some s
unfolding from_utf8 to_utf8 utf8_run
from_utf8-to_utf8 [] h = refl
from_utf8-to_utf8 (c ∷ s) h =
    ground (arith, utf8_run-encode_char c (to_utf8 s) h.0, from_utf8-to_utf8 s h.1)

-- An encoding is made of bytes.
pub to_utf8_bytes : (s : Text) → All IsScalar s → All (λ b. b < 256) (to_utf8 s)
unfolding to_utf8
to_utf8_bytes [] h = tt
to_utf8_bytes (c ∷ s) h = let rest = to_utf8_bytes s h.1 in ground arith
