-- ===== src/Server/Auth/Completes.antt =====
-- The mechanism SCRAM-SHA-256 of crates/sentio-smtp-server/src/auth.rs, seen from a client that has
-- the key: what it sends, and what comes back.
pub mod Final
pub mod Whole
use sentio.Common.{
  ℕ, ◌<◌, Bool, true, false, List, [], ◌∷◌, ◌++◌, Option, none, some, length, ◌≡◌, ◌≢◌, refl, sym,
  ap, ◌∙◌, inl, arith, ok_or, All, All-map, Result, ok,
}
use sentio.Common.Text.{Text, codes, same, trim, is_whitespace, split}
use sentio.Common.Text.Laws.{trim_words}
use sentio.Common.Text.Pieces.{split-append, split_last}
use sentio.Common.Utf8.{from_utf8}
use sentio.Common.Utf8.Encode.{to_utf8, to_utf8_ascii, to_utf8_bytes, IsScalar, from_utf8-to_utf8}
use sentio.Server.Response.{auth_challenge, auth_failed}
use sentio.Server.Session.Types.{complete, challenge}
use sentio.Server.Auth.Types.{
  SmtpCredentialRecord, SaslDeps, ScramServerState, AuthState, scram_step, Progress,
}
use sentio.Server.Auth.Passwords.{text_of, decode}
use sentio.Server.Auth.ScramFinal.{scram_dispatch, handle_scram_continue}
use sentio.Server.Auth.Exchange.{continue_auth, continue_text, continue_state}

-- What is relied on of the crates and the random bytes: base64 is decoded to what it was made of
-- and has its own characters only, and signatures and digests have 32 bytes.
pub record IsFaithful {W : Type 0} (d : SaslDeps W) : Type 0 where
  pub decodes :
      (bytes : List ℕ) → All (λ b. b < 256) bytes → d.b64_decode (d.b64_encode bytes) ≡ some bytes
  pub alphabet :
      (bytes : List ℕ)
      → All (λ b. b < 256) bytes
      → All
          (λ c. (c < 0x80) × (c ≢ b',') × (c ≢ b'*') × (is_whitespace c ≡ false))
          (d.b64_encode bytes)
  pub signs :
      (key message : List ℕ)
      → (length (d.hmac_sha256 key message) ≡ 32) × All (λ b. b < 256) (d.hmac_sha256 key message)
  pub digests : (bytes : List ℕ) → All (λ b. b < 256) (d.sha256 bytes)
  pub draws : (w : W) → All (λ b. b < 256) (d.random w).0

module _ {W : Type 0} (d : SaslDeps W) (f : IsFaithful d) where
  -- What a client sends: the base64 of its message.
  abbrev pub sent : Text → List ℕ
  sent message = d.b64_encode (to_utf8 message)

  encoded_ascii :
      (bytes : List ℕ)
      → All (λ b. b < 256) bytes
      → to_utf8 (d.b64_encode bytes) ≡ d.b64_encode bytes
  encoded_ascii bytes h = to_utf8_ascii _ (All-map _ _ _ (λ c p. p.0) (f.alphabet bytes h))

  -- What is decoded from a text that was encoded.
  pub decoded :
      (bytes : List ℕ)
      → All (λ b. b < 256) bytes
      → d.b64_decode (to_utf8 (d.b64_encode bytes)) ≡ some bytes
  decoded bytes h = ap d.b64_decode (encoded_ascii bytes h) ∙ f.decodes bytes h

  pub encoded-IsScalar :
      (bytes : List ℕ) → All (λ b. b < 256) bytes → All IsScalar (d.b64_encode bytes)
  encoded-IsScalar bytes h = All-map _ _ _ (λ c p. inl (omega arith)) (f.alphabet bytes h)

  line_text :
      (bytes : List ℕ)
      → All (λ b. b < 256) bytes
      → text_of d (d.b64_encode bytes) ≡ ok (d.b64_encode bytes)
  unfolding text_of
  line_text bytes h =
      ap (λ (line : List ℕ). ok_or (from_utf8 line) auth_failed) (sym (encoded_ascii bytes h))
      ∙ ap (λ (t : Option Text). ok_or t auth_failed)
          (from_utf8-to_utf8 (d.b64_encode bytes) (encoded-IsScalar bytes h))

  line_trim :
      (bytes : List ℕ) → All (λ b. b < 256) bytes → trim (d.b64_encode bytes) ≡ d.b64_encode bytes
  line_trim bytes h = trim_words _ (All-map _ _ _ (λ c p. p.3) (f.alphabet bytes h))

  no_star : (s : Text) → All (λ c. c ≢ b'*') s → same s (codes "*") ≡ false
  unfolding same
  no_star [] h = refl
  no_star (c ∷ s) h = ground arith

  line_star :
      (bytes : List ℕ) → All (λ b. b < 256) bytes → same (d.b64_encode bytes) (codes "*") ≡ false
  line_star bytes h = no_star _ (All-map _ _ _ (λ c p. p.2) (f.alphabet bytes h))

  -- A message that a client sends in the exchange is read as it was written.
  pub continue_auth_sent :
      (state : ScramServerState) (message : Text) (w : W)
      → All IsScalar message
      → continue_auth d (scram_step state) (sent message) w ≡ scram_dispatch d state message w
  unfolding continue_auth continue_text continue_state handle_scram_continue decode text_of
  continue_auth_sent state message w h =
      let bytes = to_utf8 message in
      let b = to_utf8_bytes message h in
      rw (line_text bytes b) (
        rw (line_trim bytes b)
          (rw (line_star bytes b) (rw (decoded bytes b) (rw (from_utf8-to_utf8 message h) refl))))
