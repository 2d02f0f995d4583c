-- ===== src/Core/Verp/RoundTrip.antt =====
-- The bounce addresses of crates/sentio-core/src/verp.rs are read back, and only with their tag.
use sentio.Common.{
  ℕ, zero, suc, ◌*◌, ◌<◌, All, ◌≢◌, List, [], ◌∷◌, ◌++◌, some, ◌≡◌, refl, ap, ◌∙◌, arith, take,
  length, length-take, inl, inr, Option-cases,
}
use sentio.Common.Text.{Text, same_iff, same_refl, strip_prefix, split_once}
use sentio.Common.Text.Laws.{split_once-append, len_ascii}
use sentio.Core.Verp.{
  Crypto, IsCrypto, IsHexDigit, hex, prefix, tag_hex, tag_byte_len, encode_local_part, check_tag,
  decode_local_part,
}

length-hex : (bytes : List ℕ) → length (hex bytes) ≡ 2 * length bytes
unfolding hex
length-hex [] = omega arith
length-hex (b ∷ bytes) = omega (arith, length-hex bytes)

strip_prefix-append : (p s : Text) → strip_prefix p (p ++ s) ≡ some s
unfolding strip_prefix
strip_prefix-append [] s = refl
strip_prefix-append (c ∷ p) s = ground (arith, strip_prefix-append p s)

-- What the two cuts take apart is the text.
strip_prefix-some : (p s rest : Text) → strip_prefix p s ≡ some rest → s ≡ p ++ rest
unfolding strip_prefix
strip_prefix-some [] s rest e = cc
strip_prefix-some (c ∷ p) [] rest e = cc
strip_prefix-some (c ∷ p) (a ∷ s) rest e = ground (arith, strip_prefix-some p s rest)

split_once-some : (c : ℕ) (s a b : Text) → split_once c s ≡ some (a, b) → s ≡ a ++ c ∷ b
unfolding split_once
split_once-some c [] a b e = cc
split_once-some c (x ∷ s) a b e = elim (Option-cases (split_once c s)) [
  | inl n ↦ ground arith
  | inr ((a', b'), k) ↦ ground (arith, split_once-some c s a' b' k)
]

digits_low : (s : Text) → All IsHexDigit s → All (λ a. a < 0x80) s
digits_low [] h = tt
digits_low (a ∷ s) h = (ground (arith, h.0), digits_low s h.1)

digits_no_dot : (s : Text) → All IsHexDigit s → All (λ a. a ≢ b'.') s
digits_no_dot [] h = tt
digits_no_dot (a ∷ s) h = (ground (arith, h.0), digits_no_dot s h.1)

hex_low : (bytes : List ℕ) → All (λ b. b < 256) bytes → All (λ a. a < 0x80) (hex bytes)
unfolding hex
hex_low [] h = tt
hex_low (b ∷ bytes) h = (ground (arith, h.0), (ground (arith, h.0), hex_low bytes h.1))

All-take : (n : ℕ) (bytes : List ℕ) → All (λ b. b < 256) bytes → All (λ b. b < 256) (take n bytes)
All-take zero bytes h = tt
All-take (suc n) [] h = tt
All-take (suc n) (b ∷ bytes) h = (h.0, All-take n bytes h.1)

module _ (c : Crypto) (secret : List ℕ) where
  tag_hex_low : IsCrypto c → (id_hex : Text) → All (λ a. a < 0x80) (tag_hex c secret id_hex)
  unfolding tag_hex
  tag_hex_low h id_hex =
      hex_low (take tag_byte_len (c.hmac_sha256 secret id_hex))
        (All-take tag_byte_len (c.hmac_sha256 secret id_hex) (h.tag_bytes secret id_hex))

  length-tag_hex : IsCrypto c → (id_hex : Text) → length (tag_hex c secret id_hex) ≡ 10
  unfolding tag_hex
  length-tag_hex h id_hex = omega (
    arith,
    length-hex (take tag_byte_len (c.hmac_sha256 secret id_hex)),
    length-take tag_byte_len (c.hmac_sha256 secret id_hex),
    h.tag_length secret id_hex,
  )

  check_tag-tag_hex :
      IsCrypto c
      → (id : c.Uuid) → check_tag c secret (c.simple id) (tag_hex c secret (c.simple id)) ≡ some id
  unfolding check_tag
  check_tag-tag_hex h id = ground (
    arith,
    h.simple_length id,
    len_ascii (c.simple id) (digits_low (c.simple id) (h.simple_digits id)),
    len_ascii (tag_hex c secret (c.simple id)) (tag_hex_low h (c.simple id)),
    length-tag_hex h (c.simple id),
    h.parse_simple id,
    same_refl (tag_hex c secret (c.simple id)),
  )

  -- If the crates for HMAC and UUIDs do what they document, the local part of a bounce address is
  -- read back as the id that it was made for.
  pub decode_local_part-encode_local_part :
      IsCrypto c
      → (id : c.Uuid) → decode_local_part c secret (encode_local_part c secret id) ≡ some id
  unfolding decode_local_part encode_local_part
  decode_local_part-encode_local_part h id =
      let id_hex = c.simple id in
      ground (
        arith,
        strip_prefix-append prefix (id_hex ++ b'.' ∷ tag_hex c secret id_hex),
        split_once-append b'.' id_hex (tag_hex c secret id_hex)
            (digits_no_dot (c.simple id) (h.simple_digits id)),
        check_tag-tag_hex h id,
      )

  check_tag_genuine :
      (id_hex sig_hex : Text) (id : c.Uuid)
      → check_tag c secret id_hex sig_hex ≡ some id
      → (sig_hex ≡ tag_hex c secret id_hex) × (c.parse_str id_hex ≡ some id)
  unfolding check_tag
  check_tag_genuine id_hex sig_hex id e = ground (arith, same_iff (tag_hex c secret id_hex) sig_hex)

  -- A local part that is read as an id is the prefix, the digits of that id, a dot, and the tag of
  -- these digits under the secret.
  pub decode_local_part_genuine :
      (local_part : Text) (id : c.Uuid)
      → decode_local_part c secret local_part ≡ some id
      → (id_hex : Text) × ((local_part ≡ prefix ++ (id_hex ++ b'.' ∷ tag_hex c secret id_hex))
          × (c.parse_str id_hex ≡ some id))
  unfolding decode_local_part
  decode_local_part_genuine local_part id e = elim (Option-cases (strip_prefix prefix local_part)) [
    | inl n ↦ ground arith
    | inr (rest, k) ↦ elim (Option-cases (split_once b'.' rest)) [
      | inl n ↦ ground arith
      | inr ((id_hex, sig_hex), l) ↦
          let (t, i) = check_tag_genuine id_hex sig_hex id (ground arith) in
          (
            id_hex,
            (
              strip_prefix-some prefix local_part rest k
                  ∙ ap (λ r. prefix ++ r) (split_once-some b'.' rest id_hex sig_hex l)
                  ∙ ap (λ g. prefix ++ (id_hex ++ b'.' ∷ g)) t,
              i,
            ),
          )
    ]
  ]
