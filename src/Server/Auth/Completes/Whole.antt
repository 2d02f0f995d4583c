-- ===== src/Server/Auth/Completes/Whole.antt =====
-- A whole exchange of SCRAM-SHA-256 in crates/sentio-smtp-server/src/auth.rs, for a client that has
-- the key of an account.
use sentio.Common.{
  ℕ, ◌<◌, true, false, List, ◌∷◌, ◌++◌, Option, none, some, length, ◌≡◌, ◌≢◌, refl, ap, ◌∙◌, inl,
  arith, All, All-map, All-append, ok,
}
use sentio.Common.Text.{
  Text, codes, same, strip_prefix, split_once, is_empty, decimal, to_ascii_uppercase,
  to_ascii_upper,
}
use sentio.Common.Text.Pieces.{split-append, split_last}
use sentio.Common.Utf8.Encode.{to_utf8, IsScalar}
use sentio.Server.Response.{auth_challenge, auth_continue}
use sentio.Server.Session.Types.{complete, challenge}
use sentio.Server.Auth.Types.{
  SmtpCredentialRecord, SaslDeps, ScramServerState, scram_step, Progress,
}
use sentio.Server.Auth.Passwords.{check_account}
use sentio.Server.Auth.Scram.{
  Gs2, parse_gs2, first_attributes, user_and_nonce, first_state, parse_first, empty_state,
  with_keys, server_first_message, handle_scram_begin, send_server_first,
  scram_produce_server_first, scram_process_full_first,
}
use sentio.Server.Auth.ScramFinal.{expected_binding, scram_process_client_final, scram_dispatch}
use sentio.Server.Auth.Exchange.{mechanism_and_response, begin_mechanism, begin_auth, continue_auth}
use sentio.Server.Auth.Completes.{IsFaithful, sent, encoded-IsScalar, continue_auth_sent}
use sentio.Server.Auth.Completes.Final.{
  client_final, proof_of, proof_bytes, no_comma, scram_process_client_final_accepts,
}

-- The client's first message, without channel binding, and its part after the header.
abbrev pub client_first_bare : (user nonce : Text) → Text
client_first_bare user nonce = codes "n=" ++ (user ++ (b',' ∷ (codes "r=" ++ nonce)))

abbrev pub client_first : (user nonce : Text) → Text
client_first user nonce = codes "n,," ++ client_first_bare user nonce

-- A text that may stand as an attribute.
abbrev pub IsAttribute : Text → Type 0
IsAttribute s = All (λ c. IsScalar c × (c ≢ b',')) s

-- An enabled account that has the keys of SCRAM.
pub record HasKeys (account : SmtpCredentialRecord) (stored server salt : Text) (iterations : ℕ)
    : Type 0 where
  pub enabled : account.enabled ≡ true
  pub stored_key : account.scram_stored_key ≡ some stored
  pub server_key : account.scram_server_key ≡ some server
  pub salted : account.scram_salt ≡ some salt
  pub iterated : account.scram_iterations ≡ some iterations

behind : (word s : Text) → All (λ c. c < 0x80) word → All IsScalar s → All IsScalar (word ++ s)
behind word s h k = All-append IsScalar word s (All-map _ _ word (λ c p. inl (omega arith)) h) k

plain_gs2 : (user nonce : Text) → Gs2
plain_gs2 user nonce = record {
  header = codes "n,,";
  flag = b'n';
  bare = client_first_bare user nonce;
}

user_and_nonce_lem :
    (user nonce : Text)
    → All (λ c. c ≢ b',') user
    → All (λ c. c ≢ b',') nonce
    → user_and_nonce (client_first_bare user nonce) ≡ ok (user, nonce)
unfolding user_and_nonce first_attributes strip_prefix
user_and_nonce_lem user nonce h k =
    rw
      (split-append b',' (codes "n=" ++ user) (codes "r=" ++ nonce)
        (ground arith, (ground arith, h)))
      (rw (split_last b',' (codes "r=" ++ nonce) (ground arith, (ground arith, k))) refl)

parse_first_lem :
    (binding : Option (List ℕ)) (user nonce : Text)
    → All (λ c. c ≢ b',') user
    → All (λ c. c ≢ b',') nonce
    → parse_first binding (client_first user nonce)
      ≡ ok (first_state binding (plain_gs2 user nonce) user nonce)
unfolding parse_first parse_gs2 strip_prefix plain_gs2
parse_first_lem binding user nonce h k = rw (user_and_nonce_lem user nonce h k) refl

module _ {W : Type 0} (d : SaslDeps W) where
  -- The state after the challenge, with the nonce made longer by random bytes.
  abbrev pub challenged :
      (user nonce stored server salt : Text) (iterations : ℕ) (account : SmtpCredentialRecord)
      (drawn : List ℕ)
      → ScramServerState
  challenged user nonce stored server salt iterations account drawn =
      let combined = nonce ++ d.b64_encode drawn in
      record (first_state none
        (record { header = codes "n,,"; flag = b'n'; bare = client_first_bare user nonce }) user
        nonce) {
          stored_key_b64 = stored;
          server_key_b64 = server;
          salt_b64 = salt;
          iterations = iterations;
          tenant_id = account.tenant_id;
          combined_nonce = combined;
          server_first =
              codes "r="
              ++ (combined ++ (codes ",s=" ++ (salt ++ (codes ",i=" ++ decimal iterations))));
        }

  dispatch_first :
      (user nonce stored server salt : Text) (iterations : ℕ) (account : SmtpCredentialRecord)
      (w : W)
      → All (λ c. c ≢ b',') user
      → All (λ c. c ≢ b',') nonce
      → (d.lookup user w).0 ≡ ok account
      → HasKeys account stored server salt iterations
      → let (drawn, w') = d.random (d.lookup user w).1 in
        let state = challenged user nonce stored server salt iterations account drawn in
        scram_dispatch d (empty_state none) (client_first user nonce) w ≡ (
          ok (
              challenge
                (scram_step state)
                (auth_challenge (d.b64_encode (to_utf8 state.server_first)))),
          w',
        )
  unfolding scram_dispatch is_empty scram_process_full_first scram_produce_server_first
      send_server_first check_account with_keys server_first_message plain_gs2
  dispatch_first user nonce stored server salt iterations account w h k found keys =
      rw (parse_first_lem none user nonce h k) (
        rw found (
          rw keys.enabled
            (rw keys.stored_key (rw keys.server_key (rw keys.salted (rw keys.iterated refl))))))

  begin_scram :
      (binding : Option (List ℕ)) (w : W)
      → begin_auth d (codes "SCRAM-SHA-256") binding w
        ≡ (ok (challenge (scram_step (empty_state none)) auth_continue), w)
  unfolding begin_auth begin_mechanism mechanism_and_response split_once to_ascii_uppercase
      to_ascii_upper same handle_scram_begin
  begin_scram binding w = refl

  dispatch_final :
      (state : ScramServerState) (msg : Text) (w : W)
      → is_empty state.server_first ≡ false
      → scram_dispatch d state msg w ≡ (scram_process_client_final d state msg, w)
  unfolding scram_dispatch
  dispatch_final state msg w h = rw h refl

  module _ (user nonce stored server salt : Text) (iterations : ℕ) (account : SmtpCredentialRecord)
      (drawn : List ℕ) where
    challenged_binding :
        expected_binding (challenged user nonce stored server salt iterations account drawn)
        ≡ ok (codes "n,,")
    unfolding expected_binding to_utf8
    challenged_binding = refl

    challenged_sent :
        is_empty (challenged user nonce stored server salt iterations account drawn).server_first
        ≡ false
    unfolding is_empty
    challenged_sent = refl

  scalars_of-IsAttribute : (s : Text) → IsAttribute s → All IsScalar s
  scalars_of-IsAttribute s h = All-map _ _ s (λ c p. p.0) h

  no_comma_of-IsAttribute : (s : Text) → IsAttribute s → All (λ c. c ≢ b',') s
  no_comma_of-IsAttribute s h = All-map _ _ s (λ c p. p.1) h

  client_first-IsScalar :
      (user nonce : Text)
      → All IsScalar user
      → All IsScalar nonce
      → All IsScalar (client_first user nonce)
  client_first-IsScalar user nonce h k =
      behind (codes "n,,n=") _ (omega arith)
        (All-append IsScalar user _ h (behind (codes ",r=") nonce (omega arith) k))

  client_final-IsScalar :
      IsFaithful d
      → (state : ScramServerState) (binding client_key : List ℕ) → All IsScalar state.combined_nonce
      → All (λ b. b < 256) binding
      → All (λ b. b < 256) (proof_of d client_key state binding)
      → All IsScalar (client_final d client_key state binding)
  client_final-IsScalar f state binding client_key n b p = behind (codes "c=") _ (omega arith) (
      All-append IsScalar (d.b64_encode binding) _ (encoded-IsScalar d f binding b) (
        behind (codes ",r=") _ (omega arith) (
          All-append IsScalar state.combined_nonce _ n
            (behind (codes ",p=") _ (omega arith) (encoded-IsScalar d f _ p)))))

  -- A client that has the key of an enabled account is logged in as its user, with its tenant: AUTH
  -- asks for the first message; that one is answered by the challenge for the account, with the
  -- nonce that the client sent and random bytes behind it; and the last message completes the
  -- exchange. Base64, the signatures and the digests are taken to be faithful.
  pub scram_exchange :
      (f : IsFaithful d) (user nonce server salt : Text) (iterations : ℕ)
      (account : SmtpCredentialRecord) (client_key : List ℕ) (w w' : W)
      → IsAttribute user
      → IsAttribute nonce
      → (length client_key ≡ 32) × All (λ b. b < 256) client_key
      → (d.lookup user w).0 ≡ ok account
      → HasKeys account (d.b64_encode (d.sha256 client_key)) server salt iterations
      → let (drawn, v) = d.random (d.lookup user w).1 in
        let stored = d.b64_encode (d.sha256 client_key) in
        let state = challenged user nonce stored server salt iterations account drawn in
        (begin_auth d (codes "SCRAM-SHA-256") none w
          ≡ (ok (challenge (scram_step (empty_state none)) auth_continue), w))
        × (continue_auth d (scram_step (empty_state none)) (sent d f (client_first user nonce)) w
            ≡ (
              ok (
                  challenge
                    (scram_step state)
                    (auth_challenge (d.b64_encode (to_utf8 state.server_first)))),
              v,
            ))
        × (continue_auth d
              (scram_step state)
              (sent d f (client_final d client_key state (codes "n,,")))
              w'
            ≡ (ok (complete (record { username = user; tenant_id = account.tenant_id })), w'))
  scram_exchange f user nonce server salt iterations account client_key w w' h k key found keys =
      let (drawn, v) = d.random (d.lookup user w).1 in
      let stored = d.b64_encode (d.sha256 client_key) in
      let state = challenged user nonce stored server salt iterations account drawn in
      let drawn_bytes = f.draws (d.lookup user w).1 in
      let scalar_nonce : All IsScalar state.combined_nonce =
        All-append IsScalar nonce _ (scalars_of-IsAttribute nonce k)
          (encoded-IsScalar d f drawn drawn_bytes) in
      let plain_nonce : All (λ c. c ≢ b',') state.combined_nonce =
        All-append (λ c. c ≢ b',') nonce _ (no_comma_of-IsAttribute nonce k)
          (no_comma d f drawn drawn_bytes) in
      let header : All (λ b. b < 256) (codes "n,,") = omega arith in
      let expected = challenged_binding user nonce stored server salt iterations account drawn in
      let sent_first : is_empty state.server_first ≡ false =
        challenged_sent user nonce stored server salt iterations account drawn in
      (
        begin_scram none w,
        continue_auth_sent d f (empty_state none) (client_first user nonce) w (
              client_first-IsScalar user nonce (scalars_of-IsAttribute user h)
                (scalars_of-IsAttribute nonce k))
            ∙ dispatch_first user nonce stored server salt iterations account w
                (no_comma_of-IsAttribute user h) (no_comma_of-IsAttribute nonce k) found keys,
        continue_auth_sent d f state (client_final d client_key state (codes "n,,")) w' (
              client_final-IsScalar f state (codes "n,,") client_key scalar_nonce header (
                proof_bytes d f state (codes "n,,") client_key plain_nonce header expected refl
                  key))
            ∙ dispatch_final state (client_final d client_key state (codes "n,,")) w' sent_first
            ∙ ap (λ (p : Progress). (p, w'))
                (scram_process_client_final_accepts d f state (codes "n,,") client_key plain_nonce
                  header expected refl key),
      )
