-- ===== src/Core/Verp.antt =====
-- The bounce addresses of crates/sentio-core/src/verp.rs.
pub mod RoundTrip
mod Tests
use sentio.Common.{
  ℕ, ◌+◌, ◌-◌, ◌/◌, ◌%◌, ◌<◌, ◌≤◌, ◌⊎◌, Bool, not, ◌||◌, List, [], ◌∷◌, ◌++◌, Option, none, some,
  ◌≡◌, take, length, All, ltb, ◌==◌, if◌then◌else◌,
}
use sentio.Common.Text.{Text, codes, len, same, strip_prefix, split_once}

-- The crates for HMAC-SHA256 and for UUIDs: the tag of a text under a secret, a UUID as its 32 hex
-- digits, and its parser.
pub record Crypto : Type 1 where
  pub Uuid : Type 0
  pub hmac_sha256 : (secret message : List ℕ) → List ℕ
  pub simple : Uuid → Text
  pub parse_str : Text → Option Uuid

-- `0` to `9`, `a` to `f`.
abbrev pub IsHexDigit : ℕ → Type 0
IsHexDigit a = ((b'0' ≤ a) × (a ≤ b'9')) ⊎ ((b'a' ≤ a) × (a ≤ b'f'))

-- What they document: a tag of 32 bytes, 32 hex digits, and a parser of what was printed.
pub record IsCrypto (c : Crypto) : Type 0 where
  pub tag_length : (secret message : List ℕ) → length (c.hmac_sha256 secret message) ≡ 32
  pub simple_length : (id : c.Uuid) → length (c.simple id) ≡ 32
  pub tag_bytes : (secret message : List ℕ) → All (λ b. b < 256) (c.hmac_sha256 secret message)
  pub simple_digits : (id : c.Uuid) → All IsHexDigit (c.simple id)
  pub parse_simple : (id : c.Uuid) → c.parse_str (c.simple id) ≡ some id

abbrev pub tag_hex_len : ℕ
tag_hex_len = 10

abbrev pub tag_byte_len : ℕ
tag_byte_len = 5

abbrev hex_digit : ℕ → ℕ
hex_digit n = if ltb n 10 then b'0' + n else b'a' + (n - 10)

-- `{:02x}` of each byte.
unfoldable pub hex : List ℕ → Text
hex [] = []
hex (b ∷ bytes) = hex_digit (b / 16) ∷ hex_digit (b % 16) ∷ hex bytes

abbrev pub prefix : Text
prefix = codes "bounce+"

module _ (c : Crypto) (secret : List ℕ) where
  unfoldable pub tag_hex : Text → Text
  tag_hex id_hex = hex (take tag_byte_len (c.hmac_sha256 secret id_hex))

  unfoldable pub encode_local_part : c.Uuid → Text
  encode_local_part msg_id =
      let id_hex = c.simple msg_id in prefix ++ (id_hex ++ b'.' ∷ tag_hex id_hex)

  unfoldable pub encode_address : c.Uuid → Text → Text
  encode_address msg_id sending_domain =
      encode_local_part msg_id ++ (codes "@bounce." ++ sending_domain)

  -- After the cuts at the prefix and at the first dot.
  unfoldable pub check_tag : (id_hex sig_hex : Text) → Option c.Uuid
  check_tag id_hex sig_hex =
      if not (len id_hex == 32) || not (len sig_hex == tag_hex_len)
      then none
      else elim (c.parse_str id_hex) [
        | none ↦ none
        | some uuid ↦ if same (tag_hex id_hex) sig_hex then some uuid else none
      ]

  unfoldable pub decode_local_part : Text → Option c.Uuid
  decode_local_part local_part = elim (strip_prefix prefix local_part) [
    | none ↦ none
    | some rest ↦ elim (split_once b'.' rest) [
      | none ↦ none
      | some (id_hex, sig_hex) ↦ check_tag id_hex sig_hex
    ]
  ]
