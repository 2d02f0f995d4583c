-- ===== src/Common/Utf8.antt =====
-- `std::str::from_utf8`, as a machine that reads one byte at a time.
pub mod Encode
use Prim.Native.Nat.{ℕ, zero, suc, ◌+◌, ◌-◌, ◌*◌, ◌<◌}
use mathlib.Core.Path.{◌≡◌, refl}
use mathlib.Core.Bool.{◌&&◌}
use mathlib.Core.Option.{Option, none, some}
use mathlib.Core.List.{List, [], ◌∷◌}
use native.Mathlib.Omega.{arith}
use sentio.Common.Tests.{ltb, leb, ◌==◌, if◌then◌else◌}
use sentio.Common.Lists.{All}
use sentio.Common.Text.{Text}

-- Between characters, or inside one: `need + 1` more bytes, the next one from `lo` to `hi`.
pub data Utf8State : Type 0 where
  between : Utf8State
  within : (need lo hi acc : ℕ) → Utf8State

pub data Utf8Step : Type 0 where
  invalid : Utf8Step
  emit : ℕ → Utf8Step
  go_on : Utf8State → Utf8Step

-- The first byte of a character fixes its width and the range of the second byte, which keeps out
-- overlong forms, surrogates and code points above 0x10ffff.
unfoldable pub first_byte : ℕ → Utf8Step
first_byte b =
    if ltb b 0x80
    then emit b
    else if ltb b 0xc2
    then invalid
    else if ltb b 0xe0
    then go_on (within 0 0x80 0xbf (b - 0xc0))
    else if ltb b 0xf0
    then go_on
        (within 1 (if b == 0xe0 then 0xa0 else 0x80) (if b == 0xed then 0x9f else 0xbf) (b - 0xe0))
    else if ltb b 0xf5
    then go_on
        (within 2 (if b == 0xf0 then 0x90 else 0x80) (if b == 0xf4 then 0x8f else 0xbf) (b - 0xf0))
    else invalid

unfoldable pub next_byte : (need acc b : ℕ) → Utf8Step
next_byte zero acc b = emit (acc * 64 + (b - 0x80))
next_byte (suc need) acc b = go_on (within need 0x80 0xbf (acc * 64 + (b - 0x80)))

unfoldable pub utf8_step : Utf8State → ℕ → Utf8Step
unfolding first_byte next_byte
utf8_step between b = first_byte b
utf8_step (within need lo hi acc) b = if leb lo b && leb b hi then next_byte need acc b else invalid

abbrev pub cons_text : ℕ → Option Text → Option Text
cons_text c none = none
cons_text c (some s) = some (c ∷ s)

unfoldable pub utf8_run : Utf8State → List ℕ → Option Text
unfolding utf8_step
utf8_run between [] = some []
utf8_run (within need lo hi acc) [] = none
utf8_run st (b ∷ bytes) = elim (utf8_step st b) [
  | invalid ↦ none
  | emit c ↦ cons_text c (utf8_run between bytes)
  | go_on st' ↦ utf8_run st' bytes
]

unfoldable pub from_utf8 : List ℕ → Option Text
unfolding utf8_run
from_utf8 bytes = utf8_run between bytes

-- ASCII bytes are their own text.
utf8_run_ascii : (s : List ℕ) → All (λ c. c < 0x80) s → utf8_run between s ≡ some s
unfolding utf8_run
utf8_run_ascii [] h = refl
utf8_run_ascii (c ∷ s) h = ground (arith, utf8_run_ascii s h.1)

pub from_utf8_ascii : (s : List ℕ) → All (λ c. c < 0x80) s → from_utf8 s ≡ some s
unfolding from_utf8
from_utf8_ascii s h = utf8_run_ascii s h

two_bytes : from_utf8 (0x41 ∷ 0xc3 ∷ 0xa9 ∷ []) ≡ some (0x41 ∷ 0xe9 ∷ [])
unfolding from_utf8
two_bytes = refl

surrogate : from_utf8 (0xed ∷ 0xa0 ∷ 0x80 ∷ []) ≡ none
unfolding from_utf8
surrogate = refl
