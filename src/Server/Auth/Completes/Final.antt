-- ===== src/Server/Auth/Completes/Final.antt =====
-- The last step of SCRAM-SHA-256 in crates/sentio-smtp-server/src/auth.rs, for a client that has
-- the key.
use sentio.Common.{
  ℕ, ◌<◌, List, [], ◌∷◌, ◌++◌, some, length, ◌≡◌, ◌≢◌, refl, ap, ◌∙◌, arith, All, All-map, ==_iff,
  ok,
}
use sentio.Common.Bits.{bit_xor_byte}
use sentio.Common.Text.{Text, codes, same_refl, strip_prefix, starts_with, split}
use sentio.Common.Text.Pieces.{split-append, split_last}
use sentio.Common.Utf8.Encode.{to_utf8}
use sentio.Server.Session.Types.{complete}
use sentio.Server.Auth.Types.{SaslDeps, ScramServerState}
use sentio.Server.Auth.Passwords.{decode}
use sentio.Server.Auth.ScramFinal.{
  FinalAttributes, no_attributes, read_attribute, final_attributes, parts_without_proof, join_comma,
  expected_binding, xor_bytes, auth_message_of, check_binding, check_proof,
  scram_process_client_final,
}
use sentio.Server.Auth.Bytes.{constant_time_eq_iff, xor_bytes_twice, length-xor_bytes}
use sentio.Server.Auth.Completes.{IsFaithful, decoded}

xor_bytes_bytes :
    (xs ys : List ℕ)
    → All (λ b. b < 256) xs
    → All (λ b. b < 256) ys
    → All (λ b. b < 256) (xor_bytes xs ys)
unfolding xor_bytes
xor_bytes_bytes [] ys h k = tt
xor_bytes_bytes (x ∷ xs) [] h k = tt
xor_bytes_bytes (x ∷ xs) (y ∷ ys) h k = (bit_xor_byte x y h.0 k.0, xor_bytes_bytes xs ys h.1 k.1)

module _ {W : Type 0} (d : SaslDeps W) where
  -- The attributes of the last message that the proof covers.
  abbrev pub binding_part : (binding : List ℕ) → Text
  binding_part binding = codes "c=" ++ d.b64_encode binding

  abbrev pub nonce_part : Text → Text
  nonce_part nonce = codes "r=" ++ nonce

  -- What is signed, by RFC 5802: the first message without its header, the server's message, and
  -- the last message without its proof.
  abbrev pub signed : ScramServerState → (binding : List ℕ) → Text
  signed state binding =
      state.client_first_bare
      ++ (b','
          ∷ (state.server_first
              ++ (b',' ∷ (binding_part binding ++ (b',' ∷ nonce_part state.combined_nonce)))))

  abbrev pub proof_of : (client_key : List ℕ) → ScramServerState → (binding : List ℕ) → List ℕ
  proof_of client_key state binding =
      xor_bytes client_key (d.hmac_sha256 (d.sha256 client_key) (to_utf8 (signed state binding)))

  abbrev pub proof_part : (client_key : List ℕ) → ScramServerState → (binding : List ℕ) → Text
  proof_part client_key state binding =
      codes "p=" ++ d.b64_encode (proof_of client_key state binding)

  abbrev pub client_final : (client_key : List ℕ) → ScramServerState → (binding : List ℕ) → Text
  client_final client_key state binding =
      binding_part binding
      ++ (b',' ∷ (nonce_part state.combined_nonce ++ (b',' ∷ proof_part client_key state binding)))

  pub no_comma :
      IsFaithful d
      → (bytes : List ℕ) → All (λ b. b < 256) bytes
      → All (λ c. c ≢ b',') (d.b64_encode bytes)
  no_comma f bytes h = All-map _ _ _ (λ c p. p.1) (f.alphabet bytes h)

  module _ (f : IsFaithful d) (state : ScramServerState) (binding client_key : List ℕ)
      (nonce : All (λ c. c ≢ b',') state.combined_nonce) (bytes : All (λ b. b < 256) binding)
      (expected : expected_binding state ≡ ok binding)
      (stored : state.stored_key_b64 ≡ d.b64_encode (d.sha256 client_key))
      (key : (length client_key ≡ 32) × All (λ b. b < 256) client_key) where
    pub proof_bytes : All (λ b. b < 256) (proof_of client_key state binding)
    proof_bytes = xor_bytes_bytes client_key _ key.1 (f.signs _ _).1

    abbrev attributes : FinalAttributes
    attributes = record {
      channel_binding_b64 = some (d.b64_encode binding);
      nonce = some state.combined_nonce;
      proof_b64 = some (d.b64_encode (proof_of client_key state binding));
    }

    parts_lem :
        split b',' (client_final client_key state binding)
        ≡ binding_part binding
          ∷ nonce_part state.combined_nonce
          ∷ proof_part client_key state binding
          ∷ []
    parts_lem =
        split-append b',' (binding_part binding) _
          (ground arith, (ground arith, no_comma f binding bytes))
        ∙ ap (◌∷◌ (binding_part binding)) (
            split-append b',' (nonce_part state.combined_nonce) _
              (ground arith, (ground arith, nonce))
            ∙ ap (◌∷◌ (nonce_part state.combined_nonce)) (
                split_last b',' (proof_part client_key state binding)
                  (ground arith, (ground arith, no_comma f _ proof_bytes))))

    attributes_lem :
        final_attributes no_attributes (
          binding_part binding
          ∷ nonce_part state.combined_nonce
          ∷ proof_part client_key state binding
          ∷ [])
        ≡ attributes
    unfolding final_attributes read_attribute strip_prefix
    attributes_lem = refl

    message_lem :
        auth_message_of state (
          binding_part binding
          ∷ nonce_part state.combined_nonce
          ∷ proof_part client_key state binding
          ∷ [])
        ≡ signed state binding
    unfolding auth_message_of join_comma parts_without_proof starts_with
    message_lem = refl

    check_binding_lem : check_binding d state attributes ≡ ok tt
    unfolding check_binding decode
    check_binding_lem =
        rw (decoded d f binding bytes)
          (rw expected (rw ((constant_time_eq_iff binding binding).1 refl) refl))

    check_proof_lem :
        check_proof d state
          (d.b64_encode (proof_of client_key state binding))
          (signed state binding)
        ≡ ok tt
    unfolding check_proof decode
    check_proof_lem =
        let signature = d.hmac_sha256 (d.sha256 client_key) (to_utf8 (signed state binding)) in
        let lengths : length client_key ≡ length signature =
          omega (arith, (f.signs (d.sha256 client_key) (to_utf8 (signed state binding))).0) in
        rw stored (
          rw (decoded d f (d.sha256 client_key) (f.digests client_key)) (
            rw (decoded d f (proof_of client_key state binding) proof_bytes) (
              rw ((==_iff _ (length signature)).1 (length-xor_bytes client_key signature lengths)) (
                rw (xor_bytes_twice client_key signature lengths) (
                  rw ((constant_time_eq_iff (d.sha256 client_key) (d.sha256 client_key)).1 refl)
                    refl)))))

    -- A client that has the key is authenticated as the user whose account the challenge was for.
    pub scram_process_client_final_accepts :
        scram_process_client_final d state (client_final client_key state binding)
        ≡ ok (complete (record { username = state.username; tenant_id = state.tenant_id }))
    unfolding scram_process_client_final
    scram_process_client_final_accepts = rw parts_lem (
        rw attributes_lem (
          rw check_binding_lem
            (rw (same_refl state.combined_nonce) (rw message_lem (rw check_proof_lem refl)))))
