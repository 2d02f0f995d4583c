-- ===== src/Server/Auth/Accounts.antt =====
-- Who is authenticated by the exchanges of crates/sentio-smtp-server/src/auth.rs: the account and
-- the credential behind it.
pub mod Passwords
pub mod Lines
pub mod Keys
pub mod Steps
pub mod Sessions
use sentio.Common.{
  ℕ, Bool, true, false, List, [], ◌∷◌, ◌++◌, Option, none, some, is_some, ◌≡◌, ◌⊎◌, inl, inr, refl,
  arith, length, ◌==◌, if◌then◌else◌, Result, ok, err, ok_or, ◌>>=◌, ◌>>◌, ensure, Bool-cases,
}
use sentio.Common.Text.{Text, codes, same, is_empty, split}
use sentio.Common.Utf8.{from_utf8}
use sentio.Common.Utf8.Encode.{to_utf8}
use sentio.Server.Response.{SmtpResponse, auth_failed}
use sentio.Server.Session.Types.{AuthResult, AuthProgress, complete, challenge}
use sentio.Server.Auth.Types.{
  SmtpCredentialRecord, LookupError, SaslDeps, ScramServerState, AuthState, waiting_plain_data,
  login_waiting_username, login_waiting_password, scram_step, Progress, Verification, matches,
  constant_time_eq,
}
use sentio.Server.Auth.Passwords.{
  check_account, verify_argon2, check_password, verify_credentials, decode, text_of, then_with,
  at_once, plain_parts, verify_plain, handle_plain_begin, handle_login_begin, ask_password,
}
use sentio.Server.Auth.Scram.{
  parse_first, first_state, empty_state, with_keys, scram_process_client_first, handle_scram_begin,
  send_server_first, scram_produce_server_first, scram_process_full_first,
}
use sentio.Server.Auth.ScramFinal.{
  check_proof, check_binding, no_attributes, final_attributes, auth_message_of, xor_bytes,
  scram_process_client_final, scram_dispatch, handle_scram_continue,
}
use sentio.Server.Auth.Bytes.{constant_time_eq_iff}
use sentio.Server.Auth.Exchange.{
  begin_plus, begin_mechanism, mechanism_and_response, begin_auth, continue_state, continue_text,
  continue_auth,
}

module _ {W : Type 0} (d : SaslDeps W) where
  -- A lookup has found an account that is enabled.
  pub record IsFound (name : Text) (account : SmtpCredentialRecord) : Type 0 where
    pub world : W
    pub found : (d.lookup name world).0 ≡ ok account
    pub enabled : account.enabled ≡ true

  -- The challenge of an exchange begins with the nonce that belongs to it.
  abbrev pub IsChallenged : ScramServerState → Type 0
  IsChallenged state =
      (rest : Text) × (state.server_first ≡ codes "r=" ++ (state.combined_nonce ++ rest))

  -- The signature of an exchange by the stored key, up to the last message without its proof.
  abbrev pub signature_of : ScramServerState → (stored_key : List ℕ) → (msg : Text) → List ℕ
  signature_of state stored_key msg =
      d.hmac_sha256 stored_key (to_utf8 (auth_message_of state (split b',' msg)))

-- The messages that the client has said are those of `Said`.
module _ {W : Type 0} (d : SaslDeps W) (Said : Text → Type 0) where
  -- Bytes that the client has said in base64.
  pub record IsSaid (bytes : List ℕ) : Type 0 where
    pub message : Text
    pub said : Said message
    pub decoded : d.b64_decode (to_utf8 message) ≡ some bytes

  -- The same for a text.
  pub record IsTold (text : Text) : Type 0 where
    pub bytes : List ℕ
    pub said : IsSaid bytes
    pub read : from_utf8 bytes ≡ some text

  -- The client has said what proves that it is the user of the account: the name with a password that
  -- fits the hash, in one message or in two; or a message of SCRAM with the nonce of its challenge, whose proof, with the signature
  -- by the stored key, comes to a key with the digest that is stored.
  pub data IsProved (name : Text) (account : SmtpCredentialRecord) : Type 0 where
    by_plain :
        (data_ authzid authcid passwd : List ℕ) (password : Text)
        → IsSaid data_
        → split 0 data_ ≡ authzid ∷ authcid ∷ passwd ∷ []
        → from_utf8 authcid ≡ some name
        → from_utf8 passwd ≡ some password
        → d.argon2 account.password_hash (to_utf8 password) ≡ matches
        → IsProved name account
    by_login :
        (password : Text)
        → IsTold name
        → IsTold password
        → d.argon2 account.password_hash (to_utf8 password) ≡ matches
        → IsProved name account
    by_key :
        (state : ScramServerState) (msg proof_b64 : Text) (stored_key proof : List ℕ)
        → IsTold msg
        → IsChallenged d state
        → (final_attributes no_attributes (split b',' msg)).nonce ≡ some state.combined_nonce
        → (final_attributes no_attributes (split b',' msg)).proof_b64 ≡ some proof_b64
        → d.b64_decode (to_utf8 proof_b64) ≡ some proof
        → account.scram_stored_key ≡ some state.stored_key_b64
        → d.b64_decode (to_utf8 state.stored_key_b64) ≡ some stored_key
        → length proof ≡ length (signature_of d state stored_key msg)
        → d.sha256 (xor_bytes proof (signature_of d state stored_key msg)) ≡ stored_key
        → IsProved name account

  -- The user is an enabled account that was looked up, and the client has proved it.
  pub record IsGenuine (user : AuthResult) : Type 0 where
    pub name : Text
    pub account : SmtpCredentialRecord
    pub looked_up : IsFound d name account
    pub tenant : user.tenant_id ≡ account.tenant_id
    pub named : (user.username ≡ account.username) ⊎ (user.username ≡ name)
    pub proved : IsProved name account

  -- The account behind the challenge that was sent.
  pub record IsKeyed (state : ScramServerState) : Type 0 where
    pub account : SmtpCredentialRecord
    pub looked_up : IsFound d state.username account
    pub tenant : state.tenant_id ≡ account.tenant_id
    pub stored : account.scram_stored_key ≡ some state.stored_key_b64

  abbrev pub IsSound : AuthState → Type 0
  IsSound (scram_step state) =
      (is_empty state.server_first ≡ true) ⊎ (IsKeyed state × IsChallenged d state)
  IsSound waiting_plain_data = Unit {0}
  IsSound login_waiting_username = Unit {0}
  IsSound (login_waiting_password username) = IsTold username

  abbrev pub IsSoundProgress : Progress → Type 0
  IsSoundProgress (ok (complete user)) = IsGenuine user
  IsSoundProgress (ok (challenge state response)) = IsSound state
  IsSoundProgress (err response) = Unit {0}
