-- ===== src/Core/Verp/Tests.antt =====
-- A codec of bounce addresses, and the instances of its theorems.
use sentio.Common.{ℕ, zero, suc, ◌<◌, ◌%◌, ◌++◌, ◌∷◌, [], List, some, ◌≡◌, refl, arith, length, All}
use sentio.Common.Text.{Text, len, strip_prefix, split_once, same}
use sentio.Core.Verp.{
  Crypto, IsCrypto, prefix, hex, tag_hex, encode_local_part, check_tag, decode_local_part,
}
use sentio.Core.Verp.RoundTrip.{decode_local_part-encode_local_part, decode_local_part_genuine}

abbrev repeat : ℕ → ℕ → List ℕ
repeat zero b = []
repeat (suc n) b = b ∷ repeat n b

All-repeat : (n b : ℕ) → b < 256 → All (λ a. a < 256) (repeat n b)
All-repeat zero b h = tt
All-repeat (suc n) b h = (h, All-repeat n b h)

-- One id, whose digits are all 7, and tags whose bytes are all the length of the secret.
abbrev crypto : Crypto
crypto = record {
  Uuid = Unit;
  hmac_sha256 = λ secret message. repeat 32 (length secret % 256);
  simple = λ id. repeat 32 b'7';
  parse_str = λ s. some tt;
}

crypto-IsCrypto : IsCrypto crypto
crypto-IsCrypto = record {
  tag_length = λ secret message. refl;
  simple_length = λ id. refl;
  tag_bytes = λ key message. All-repeat 32 (length key % 256) (omega arith);
  simple_digits = λ id. ground arith;
  parse_simple = λ id. refl;
}

abbrev secret : List ℕ
secret = 1 ∷ 2 ∷ 3 ∷ []

decode_local_part-encode_local_part_example :
    decode_local_part crypto secret (encode_local_part crypto secret tt) ≡ some tt
decode_local_part-encode_local_part_example =
    decode_local_part-encode_local_part crypto secret crypto-IsCrypto tt

reads : decode_local_part crypto secret (encode_local_part crypto secret tt) ≡ some tt
unfolding decode_local_part encode_local_part check_tag len tag_hex hex strip_prefix split_once same
reads = refl

decode_local_part_genuine_example :
    (id_hex : Text) × ((encode_local_part crypto secret tt
        ≡ prefix ++ (id_hex ++ b'.' ∷ tag_hex crypto secret id_hex))
      × (crypto.parse_str id_hex ≡ some tt))
decode_local_part_genuine_example =
    decode_local_part_genuine crypto secret (encode_local_part crypto secret tt) tt reads
