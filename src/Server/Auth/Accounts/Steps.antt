-- ===== src/Server/Auth/Accounts/Steps.antt =====
-- The exchanges of crates/sentio-smtp-server/src/auth.rs authenticate genuine users only.
use sentio.Common.{ℕ, List, Option, none, some, err, ◌≡◌, ok_or_lem}
use sentio.Common.Text.{Text, codes, same, trim}
use sentio.Common.Utf8.{from_utf8}
use sentio.Server.Response.{auth_cancelled}
use sentio.Server.Auth.Types.{
  SaslDeps, AuthState, waiting_plain_data, login_waiting_username, login_waiting_password,
  scram_step,
}
use sentio.Server.Auth.Passwords.{verify_credentials, text_of, verify_plain}
use sentio.Server.Auth.ScramFinal.{scram_dispatch, handle_scram_continue}
use sentio.Server.Auth.Exchange.{
  begin_plus, begin_mechanism, mechanism_and_response, begin_auth, continue_state, continue_text,
  continue_auth,
}
use sentio.Server.Auth.Accounts.{IsSound, IsSoundProgress, by_login}
use sentio.Server.Auth.Accounts.Passwords.{
  then_with-IsSound, if-IsSound, verify_credentials-IsSound, verify_plain-IsSound,
  ask_password-IsSound, decode-IsSaid, message-IsTold, handle_plain_begin-IsSound,
  handle_login_begin-IsSound,
}
use sentio.Server.Auth.Accounts.Keys.{handle_scram_begin-IsSound, scram_dispatch-IsSound}

module _ {W : Type 0} (d : SaslDeps W) (Said : Text → Type 0) where
  begin_plus-IsSound :
      (initial : Option Text) (binding : Option (List ℕ))
      → IsSoundProgress d Said (begin_plus d initial binding)
  unfolding begin_plus
  begin_plus-IsSound initial none = tt
  begin_plus-IsSound initial (some binding) =
      handle_scram_begin-IsSound d Said initial (some binding)

  pub begin_auth-IsSound :
      (args : Text) (binding : Option (List ℕ)) (w : W)
      → ((message : Text) → (mechanism_and_response args).1 ≡ some message → Said message)
      → IsSoundProgress d Said (begin_auth d args binding w).0
  unfolding begin_auth begin_mechanism
  begin_auth-IsSound args binding w h =
      let (mechanism, initial) = mechanism_and_response args in
      if-IsSound d Said (same mechanism (codes "PLAIN")) _ _
        (handle_plain_begin-IsSound d Said initial w h)
        (if-IsSound d Said (same mechanism (codes "LOGIN")) _ _
          (handle_login_begin-IsSound d Said initial h)
          (if-IsSound d Said (same mechanism (codes "SCRAM-SHA-256")) _ _
            (handle_scram_begin-IsSound d Said initial none)
            (if-IsSound d Said (same mechanism (codes "SCRAM-SHA-256-PLUS")) _ _
              (begin_plus-IsSound initial binding) tt)))

  continue_state-IsSound :
      (state : AuthState) (text : Text) (w : W)
      → IsSound d Said state
      → Said text
      → IsSoundProgress d Said (continue_state d state text w).0
  unfolding continue_state handle_scram_continue
  continue_state-IsSound waiting_plain_data text w s said =
      then_with-IsSound d Said _ (verify_plain d) w
        (λ bytes e. verify_plain-IsSound d Said bytes w (decode-IsSaid d Said text bytes said e))
  continue_state-IsSound login_waiting_username text w s said =
      ask_password-IsSound d Said text said
  continue_state-IsSound (login_waiting_password username) text w s said =
      then_with-IsSound d Said _ (λ password. verify_credentials d username password) w
        (λ password e.
          verify_credentials-IsSound d Said username password w
            (λ account fits. by_login password s (message-IsTold d Said text password said e) fits))
  continue_state-IsSound (scram_step state) text w s said =
      then_with-IsSound d Said _ (scram_dispatch d state) w (λ msg e.
        scram_dispatch-IsSound d Said state msg w s (message-IsTold d Said text msg said e))

  pub continue_auth-IsSound :
      (state : AuthState) (line : List ℕ) (w : W)
      → IsSound d Said state
      → ((text : Text) → from_utf8 line ≡ some text → Said (trim text))
      → IsSoundProgress d Said (continue_auth d state line w).0
  unfolding continue_auth continue_text text_of
  continue_auth-IsSound state line w s h =
      then_with-IsSound d Said (text_of d line) (λ text. continue_text d state (trim text)) w
        (λ text e.
          if-IsSound d Said (same (trim text) (codes "*")) (err auth_cancelled, w)
            (continue_state d state (trim text) w) tt
            (continue_state-IsSound state (trim text) w s (h text (ok_or_lem _ _ e))))
