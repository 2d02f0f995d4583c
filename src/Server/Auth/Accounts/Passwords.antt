-- ===== src/Server/Auth/Accounts/Passwords.antt =====
-- The mechanisms PLAIN and LOGIN of crates/sentio-smtp-server/src/auth.rs authenticate genuine users
-- only.
use sentio.Common.{
  ℕ, Bool, true, false, List, Option, none, some, ◌≡◌, inl, inr, refl, arith, if◌then◌else◌, Result,
  ok, err, ◌>>=◌, Bool-cases, [], ◌∷◌, >>=-eq_ok, ok_or_lem,
}
use sentio.Common.Text.{Text, split}
use sentio.Common.Utf8.{from_utf8}
use sentio.Common.Utf8.Encode.{to_utf8}
use sentio.Server.Response.{SmtpResponse}
use sentio.Server.Auth.Types.{
  SmtpCredentialRecord, LookupError, SaslDeps, Progress, Verification, matches,
}
use sentio.Server.Auth.Passwords.{
  check_account, verify_argon2, check_password, verify_credentials, decode, text_of, then_with,
  plain_parts, verify_plain, handle_plain_begin, handle_login_begin, ask_password,
}
use sentio.Server.Auth.Accounts.{IsFound, IsSaid, IsTold, IsProved, by_plain, IsSoundProgress}

module _ {W : Type 0} (d : SaslDeps W) (Said : Text → Type 0) where
  pub then_with-IsSound :
      {A : Type 0} (r : Result SmtpResponse A) (k : A → W → Progress × W) (w : W)
      → ((a : A) → r ≡ ok a → IsSoundProgress d Said (k a w).0)
      → IsSoundProgress d Said (then_with d r k w).0
  then_with-IsSound (ok a) k w h = h a refl
  then_with-IsSound (err e) k w h = tt

  pub >>=-IsSound :
      {A : Type 0} (r : Result SmtpResponse A) (k : A → Progress)
      → ((a : A) → r ≡ ok a → IsSoundProgress d Said (k a))
      → IsSoundProgress d Said (r >>= k)
  >>=-IsSound (ok a) k h = h a refl
  >>=-IsSound (err e) k h = tt

  pub if-IsSound :
      (b : Bool) (x y : Progress × W)
      → IsSoundProgress d Said x.0
      → IsSoundProgress d Said y.0
      → IsSoundProgress d Said (if b then x else y).0
  if-IsSound true x y h k = h
  if-IsSound false x y h k = k

  pub check_account_lem :
      (name : Text) (w : W) (r : Result LookupError SmtpCredentialRecord)
      (account : SmtpCredentialRecord)
      → (d.lookup name w).0 ≡ r
      → check_account d r ≡ ok account
      → IsFound d name account
  unfolding check_account
  check_account_lem name w (ok found) account e h = record {
    world = w;
    found = ground arith;
    enabled = ground arith;
  }
  check_account_lem name w (err e') account e h = cc

  matches_lem : (v : Verification) → verify_argon2 d v ≡ true → v ≡ matches
  unfolding verify_argon2
  matches_lem v h = ground arith

  -- A password that fits the hash of an account proves it.
  abbrev Proves : (name password : Text) → Type 0
  Proves name password =
      (account : SmtpCredentialRecord)
      → d.argon2 account.password_hash (to_utf8 password) ≡ matches
      → IsProved d Said name account

  check_password-IsSound :
      (name password : Text) (account : SmtpCredentialRecord)
      → IsFound d name account
      → Proves name password
      → IsSoundProgress d Said (check_password d account password)
  unfolding check_password
  check_password-IsSound name password account f p =
      elim (Bool-cases (verify_argon2 d (d.argon2 account.password_hash (to_utf8 password)))) [
        | inl yes_ ↦ rw yes_ (record {
          name = name;
          account = account;
          looked_up = f;
          tenant = refl;
          named = inl refl;
          proved = p account (matches_lem _ yes_);
        })
        | inr no_ ↦ rw no_ tt
      ]

  pub verify_credentials-IsSound :
      (username password : Text) (w : W)
      → Proves username password
      → IsSoundProgress d Said (verify_credentials d username password w).0
  unfolding verify_credentials
  verify_credentials-IsSound username password w p =
      >>=-IsSound _ (λ account. check_password d account password)
        (λ account e.
          check_password-IsSound username password account
            (check_account_lem username w _ account refl e) p)

  text_of_lem :
      (bytes : List ℕ) (text : Text) → text_of d bytes ≡ ok text → from_utf8 bytes ≡ some text
  unfolding text_of
  text_of_lem bytes text e = ok_or_lem _ _ e

  -- The three parts of the data, of which the second is the name and the third the password.
  plain_parts_lem :
      (parts : List (List ℕ)) (p : Text × Text)
      → plain_parts d parts ≡ ok p
      → (authzid : List ℕ) × (authcid : List ℕ) × (passwd : List ℕ) × (parts
          ≡ authzid ∷ authcid ∷ passwd ∷ [])
        × (from_utf8 authcid ≡ some p.0)
        × (from_utf8 passwd ≡ some p.1)
  unfolding plain_parts
  plain_parts_lem [] p e = cc
  plain_parts_lem (a ∷ []) p e = cc
  plain_parts_lem (a ∷ b ∷ []) p e = cc
  plain_parts_lem (a ∷ b ∷ c ∷ []) p e =
      let (user, e1, h1) = >>=-eq_ok (text_of d b) _ e in
      let (pass, e2, h2) = >>=-eq_ok (text_of d c) _ h1 in
      (a, b, c, refl, ground (arith, text_of_lem b user e1), ground (arith, text_of_lem c pass e2))
  plain_parts_lem (a ∷ b ∷ c ∷ x ∷ xs) p e = cc

  pub verify_plain-IsSound :
      (data_ : List ℕ) (w : W)
      → IsSaid d Said data_
      → IsSoundProgress d Said (verify_plain d data_ w).0
  unfolding verify_plain
  verify_plain-IsSound data_ w said =
      then_with-IsSound _ (λ p. verify_credentials d p.0 p.1) w
        (λ p e.
          let (a, b, c, parts, user, pass) = plain_parts_lem (split 0 data_) p e in
          verify_credentials-IsSound p.0 p.1 w
            (λ account fits. by_plain data_ a b c p.1 said parts user pass fits))

  pub decode-IsSaid :
      (message : Text) (bytes : List ℕ)
      → Said message
      → decode d (to_utf8 message) ≡ ok bytes
      → IsSaid d Said bytes
  unfolding decode
  decode-IsSaid message bytes said e = record {
    message = message;
    said = said;
    decoded = ok_or_lem _ _ e;
  }

  pub text_of-IsTold :
      (bytes : List ℕ) (text : Text)
      → IsSaid d Said bytes
      → text_of d bytes ≡ ok text
      → IsTold d Said text
  text_of-IsTold bytes text said e = record {
    bytes = bytes;
    said = said;
    read = text_of_lem bytes text e;
  }

  -- Base64 and the text of its bytes.
  pub message-IsTold :
      (message text : Text)
      → Said message
      → (do bytes ← decode d (to_utf8 message); text_of d bytes) ≡ ok text
      → IsTold d Said text
  message-IsTold message text said e =
      let (bytes, e1, e2) = >>=-eq_ok (decode d (to_utf8 message)) _ e in
      text_of-IsTold bytes text (decode-IsSaid message bytes said e1) e2

  pub ask_password-IsSound :
      (message : Text) → Said message → IsSoundProgress d Said (ask_password d (to_utf8 message))
  unfolding ask_password
  ask_password-IsSound message said = >>=-IsSound (decode d (to_utf8 message)) _ (λ bytes e.
      >>=-IsSound (text_of d bytes) _
        (λ username e'. text_of-IsTold bytes username (decode-IsSaid message bytes said e) e'))

  pub handle_plain_begin-IsSound :
      (initial : Option Text) (w : W)
      → ((message : Text) → initial ≡ some message → Said message)
      → IsSoundProgress d Said (handle_plain_begin d initial w).0
  unfolding handle_plain_begin
  handle_plain_begin-IsSound none w h = tt
  handle_plain_begin-IsSound (some data_) w h =
      then_with-IsSound _ (verify_plain d) w
        (λ bytes e. verify_plain-IsSound bytes w (decode-IsSaid data_ bytes (h data_ refl) e))

  pub handle_login_begin-IsSound :
      (initial : Option Text)
      → ((message : Text) → initial ≡ some message → Said message)
      → IsSoundProgress d Said (handle_login_begin d initial)
  unfolding handle_login_begin
  handle_login_begin-IsSound none h = tt
  handle_login_begin-IsSound (some data_) h = ask_password-IsSound data_ (h data_ refl)
