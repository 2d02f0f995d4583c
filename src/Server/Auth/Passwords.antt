-- ===== src/Server/Auth/Passwords.antt =====
-- The mechanisms PLAIN and LOGIN of crates/sentio-smtp-server/src/auth.rs.
use sentio.Common.{
  ℕ, Bool, true, false, not, List, [], ◌∷◌, Option, none, some, if◌then◌else◌, Result, ok, err,
  ok_or, ◌>>=◌,
}
use sentio.Common.Text.{Text, codes, split}
use sentio.Common.Utf8.{from_utf8}
use sentio.Common.Utf8.Encode.{to_utf8}
use sentio.Server.Response.{SmtpResponse, auth_failed, auth_challenge, auth_continue}
use sentio.Server.Session.Types.{complete, challenge}
use sentio.Server.Auth.Types.{
  SmtpCredentialRecord, LookupError, Verification, matches, differs, unreadable_hash, panicked,
  SaslDeps, waiting_plain_data, login_waiting_username, login_waiting_password, Progress,
  lookup_error_to_response,
}

module _ {W : Type 0} (d : SaslDeps W) where
  -- The lookup, and the test that the account is enabled.
  unfoldable pub check_account :
      Result LookupError SmtpCredentialRecord → Result SmtpResponse SmtpCredentialRecord
  check_account (err e) = err (lookup_error_to_response e)
  check_account (ok account) = if not account.enabled then err auth_failed else ok account

  unfoldable pub verify_argon2 : Verification → Bool
  verify_argon2 matches = true
  verify_argon2 differs = false
  verify_argon2 unreadable_hash = false
  verify_argon2 panicked = false

  unfoldable pub check_password : SmtpCredentialRecord → (password : Text) → Progress
  check_password account password =
      if verify_argon2 (d.argon2 account.password_hash (to_utf8 password))
      then ok (complete (record { username = account.username; tenant_id = account.tenant_id }))
      else err auth_failed

  unfoldable pub verify_credentials : (username password : Text) → W → Progress × W
  verify_credentials username password w =
      let (found, w') = d.lookup username w in
      (do account ← check_account found; check_password account password, w')

  -- A result that needs no lookup.
  abbrev pub at_once : {A : Type 0} → Result SmtpResponse A → W → Result SmtpResponse A × W
  at_once r w = (r, w)

  -- `?` in a function that goes on with a lookup.
  abbrev pub then_with :
      {A : Type 0} → Result SmtpResponse A → (A → W → Progress × W) → W → Progress × W
  then_with (err e) k w = (err e, w)
  then_with (ok a) k w = k a w

  -- Base64, and the text of the bytes.
  unfoldable pub decode : List ℕ → Result SmtpResponse (List ℕ)
  decode bytes = ok_or (d.b64_decode bytes) auth_failed

  unfoldable pub text_of : List ℕ → Result SmtpResponse Text
  text_of bytes = ok_or (from_utf8 bytes) auth_failed

  -- The three parts of the data of PLAIN; the first one, the authorisation identity, is not read.
  unfoldable pub plain_parts : List (List ℕ) → Result SmtpResponse (Text × Text)
  plain_parts (authzid ∷ authcid ∷ passwd ∷ []) = do
    user ← text_of authcid
    pass ← text_of passwd
    ok (user, pass)
  plain_parts _ = err auth_failed

  unfoldable pub verify_plain : List ℕ → W → Progress × W
  verify_plain data_ w = then_with (plain_parts (split 0 data_)) (λ p. verify_credentials p.0 p.1) w

  unfoldable pub handle_plain_begin : Option Text → W → Progress × W
  handle_plain_begin (some data_) w = then_with (decode (to_utf8 data_)) verify_plain w
  handle_plain_begin none w = (ok (challenge waiting_plain_data auth_continue), w)

  -- The password is asked for: "Password:" in base64.
  unfoldable pub ask_password : List ℕ → Progress
  ask_password data_ = do
    bytes ← decode data_
    username ← text_of bytes
    ok (challenge (login_waiting_password username) (auth_challenge (codes "UGFzc3dvcmQ6")))

  unfoldable pub handle_login_begin : Option Text → Progress
  handle_login_begin (some data_) = ask_password (to_utf8 data_)
  handle_login_begin none =
      ok (challenge login_waiting_username (auth_challenge (codes "VXNlcm5hbWU6")))
