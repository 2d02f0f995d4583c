-- ===== src/Server/Extensions.antt =====
-- ESMTP extensions as a bit set: crates/sentio-smtp-server/src/extensions.rs.
use Prim.Native.Nat.{bit_and, bit_or, bit_xor}
use sentio.Common.{ℕ, ◌-◌, ◌^◌, Bool, not, ◌&&◌, List, [], ◌∷◌, ◌++◌, ◌==◌, if◌then◌else◌}
use sentio.Common.Text.{Text, codes, decimal, is_empty}

-- `Extensions(u32)`.
abbrev pub Extensions : Type 0
Extensions = ℕ

abbrev pub size : ℕ
size = 1

abbrev pub eight_bit_mime : ℕ
eight_bit_mime = 2

abbrev pub pipelining : ℕ
pipelining = 4

abbrev pub smtputf8 : ℕ
smtputf8 = 8

abbrev pub chunking : ℕ
chunking = 16

abbrev pub starttls : ℕ
starttls = 32

abbrev pub auth : ℕ
auth = 64

abbrev pub enhanced_status_codes : ℕ
enhanced_status_codes = 128

abbrev pub dsn : ℕ
dsn = 256

abbrev pub xclient : ℕ
xclient = 512

abbrev pub empty : Extensions
empty = 0

unfoldable pub has : Extensions → ℕ → Bool
has ext flag = not (bit_and ext flag == 0)

unfoldable pub set : Extensions → ℕ → Extensions
set ext flag = bit_or ext flag

-- `self.0 &= !flag` on 32 bits.
unfoldable pub clear : Extensions → ℕ → Extensions
clear ext flag = bit_and ext (bit_xor (2 ^ 32 - 1) flag)

unfoldable pub base : Extensions
base =
    bit_or
      (bit_or (bit_or (bit_or (bit_or (bit_or size eight_bit_mime) pipelining) smtputf8) chunking)
        enhanced_status_codes)
      dsn

unfoldable pub default_plain : Extensions
unfolding base
default_plain = base

unfoldable pub default_smtp : Extensions
unfolding base set
default_smtp = set base starttls

unfoldable pub default_smtps : Extensions
unfolding base set
default_smtps = set base auth

unfoldable pub default_submission : Extensions
unfolding base set
default_submission = set (set base starttls) auth

-- `if cond { lines.push(line) }`, in front of the lines that follow.
abbrev line_if : Bool → Text → List Text → List Text
line_if cond line more = if cond then line ∷ more else more

unfoldable pub ehlo_lines : Extensions → ℕ → Text → List Text
unfolding has decimal is_empty
ehlo_lines ext max_message_size auth_mechanisms =
    line_if (has ext size) (codes "SIZE " ++ decimal max_message_size) (
      line_if (has ext eight_bit_mime) (codes "8BITMIME") (
        line_if (has ext pipelining) (codes "PIPELINING") (
          line_if (has ext smtputf8) (codes "SMTPUTF8") (
            line_if (has ext chunking) (codes "CHUNKING") (
              line_if (has ext starttls) (codes "STARTTLS") (
                line_if (has ext auth && not (is_empty auth_mechanisms))
                  (codes "AUTH " ++ auth_mechanisms)
                  (line_if (has ext enhanced_status_codes) (codes "ENHANCEDSTATUSCODES") (
                    line_if (has ext dsn) (codes "DSN") (
                      line_if (has ext xclient) (codes "XCLIENT ADDR NAME HELO LOGIN PORT")
                        [])))))))))
