-- ===== src/Server/Auth/Samples.antt =====
-- An account, and stand-ins for the crates and the random bytes, for the tests of auth.rs.
use sentio.Common.{
  ℕ, zero, suc, ◌+◌, ◌*◌, ◌-◌, ◌/◌, ◌%◌, ◌<◌, List, [], ◌∷◌, Option, none, some, length, ◌≡◌, ◌≢◌,
  refl, ap, arith, All, ok, err, true, false, ◌&&◌, leb, if◌then◌else◌,
}
use sentio.Common.Text.{Text, codes, same, is_whitespace}
use sentio.Server.Auth.Types.{SmtpCredentialRecord, not_found, matches, differs, SaslDeps}
use sentio.Server.Auth.Completes.{IsFaithful}
use sentio.Server.Auth.Completes.Whole.{HasKeys}

-- Two letters for a byte.
unfoldable pub letters : List ℕ → Text
letters [] = []
letters (b ∷ bytes) = (b'A' + b / 16 % 16) ∷ (b'A' + b % 16) ∷ letters bytes

unfoldable pub unletters : List ℕ → Option (List ℕ)
unletters [] = some []
unletters (x ∷ []) = none
unletters (x ∷ y ∷ s) = elim (unletters s) [
  | some bytes ↦
      if leb b'A' x && leb b'A' y then some (((x - b'A') * 16 + (y - b'A')) ∷ bytes) else none
  | none ↦ none
]

letter_test : (n : ℕ) → leb b'A' (b'A' + n) ≡ true
letter_test n = ground arith

rejoined : (b : ℕ) → b < 256 → (b'A' + b / 16 % 16 - b'A') * 16 + (b'A' + b % 16 - b'A') ≡ b
rejoined b h = omega arith

unletters-letters :
    (bytes : List ℕ) → All (λ b. b < 256) bytes → unletters (letters bytes) ≡ some bytes
unfolding unletters letters
unletters-letters [] h = refl
unletters-letters (b ∷ bytes) h = rw (unletters-letters bytes h.1) (
    rw (letter_test (b / 16 % 16))
      (rw (letter_test (b % 16)) (ap (λ (x : ℕ). some (x ∷ bytes)) (rejoined b h.0))))

letter_lem : (n : ℕ) → n < 16 → is_whitespace (b'A' + n) ≡ false
unfolding is_whitespace
letter_lem n h = ground arith

letters_alphabet :
    (bytes : List ℕ)
    → All (λ b. b < 256) bytes
    → All (λ c. (c < 0x80) × (c ≢ b',') × (c ≢ b'*') × (is_whitespace c ≡ false)) (letters bytes)
unfolding letters
letters_alphabet [] h = tt
letters_alphabet (b ∷ bytes) h = (
  (omega arith, omega arith, omega arith, letter_lem (b / 16 % 16) (omega arith)),
  (
    (omega arith, omega arith, omega arith, letter_lem (b % 16) (omega arith)),
    letters_alphabet bytes h.1,
  ),
)

abbrev pub repeated : ℕ → ℕ → List ℕ
repeated zero b = []
repeated (suc n) b = b ∷ repeated n b

unfoldable pub low_bytes : List ℕ → List ℕ
low_bytes [] = []
low_bytes (b ∷ bytes) = (b % 256) ∷ low_bytes bytes

low_bytes_bytes : (bytes : List ℕ) → All (λ b. b < 256) (low_bytes bytes)
unfolding low_bytes
low_bytes_bytes [] = tt
low_bytes_bytes (b ∷ bytes) = (omega arith, low_bytes_bytes bytes)

abbrev pub key : List ℕ
key = repeated 32 5

abbrev pub account : SmtpCredentialRecord
account = record {
  tenant_id = 4;
  username = codes "me@mx.org";
  password_hash = codes "secret";
  scram_stored_key = some (letters (low_bytes key));
  scram_server_key = some (codes "QQ");
  scram_salt = some (codes "AB");
  scram_iterations = some 4096;
  enabled = true;
}

-- The world counts the lookups.
abbrev pub sasl : SaslDeps ℕ
sasl = record {
  lookup = λ name w. (if same name account.username then ok account else err not_found, w + 1);
  random = λ w. (1 ∷ 200 ∷ [], w);
  b64_decode = unletters;
  b64_encode = letters;
  sha256 = low_bytes;
  hmac_sha256 = λ k message. (length message % 256) ∷ repeated 31 7;
  argon2 = λ hash password. if same hash password then matches else differs;
}

pub sasl-IsFaithful : IsFaithful sasl
sasl-IsFaithful = record {
  decodes = unletters-letters;
  alphabet = letters_alphabet;
  signs = λ k message. (refl, omega arith);
  digests = low_bytes_bytes;
  draws = λ w. omega arith;
}

pub account-HasKeys : HasKeys account (letters (low_bytes key)) (codes "QQ") (codes "AB") 4096
account-HasKeys = record {
  enabled = refl;
  stored_key = refl;
  server_key = refl;
  salted = refl;
  iterated = refl;
}
