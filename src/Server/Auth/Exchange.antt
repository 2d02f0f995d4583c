-- ===== src/Server/Auth/Exchange.antt =====
-- The SASL exchange as the session drives it: `begin_auth` and `continue_auth` of
-- crates/sentio-smtp-server/src/auth.rs.
use sentio.Common.{ℕ, List, [], Option, none, some, if◌then◌else◌, err, ◌>>=◌}
use sentio.Common.Text.{Text, codes, same, split_once, trim, to_ascii_uppercase}
use sentio.Common.Utf8.Encode.{to_utf8}
use sentio.Server.Response.{auth_failed, auth_cancelled, auth_mechanism_not_supported}
use sentio.Server.Auth.Types.{
  SaslDeps, AuthState, waiting_plain_data, login_waiting_username, login_waiting_password,
  scram_step, Progress,
}
use sentio.Server.Auth.Passwords.{
  decode, text_of, then_with, at_once, verify_plain, verify_credentials, ask_password,
  handle_plain_begin, handle_login_begin,
}
use sentio.Server.Auth.Scram.{handle_scram_begin}
use sentio.Server.Auth.ScramFinal.{handle_scram_continue}

-- `=` stands for an empty initial response.
unfoldable pub initial_response : Text → Text
initial_response ir = if same ir (codes "=") then [] else ir

unfoldable pub mechanism_and_response : Text → Text × Option Text
mechanism_and_response args = elim (split_once b' ' args) [
  | some (mechanism, rest) ↦ (to_ascii_uppercase mechanism, some (initial_response (trim rest)))
  | none ↦ (to_ascii_uppercase args, none)
]

module _ {W : Type 0} (d : SaslDeps W) where
  unfoldable pub begin_plus : Option Text → Option (List ℕ) → Progress
  begin_plus initial none = err auth_failed
  begin_plus initial (some binding) = handle_scram_begin d initial (some binding)

  unfoldable pub begin_mechanism : Text × Option Text → Option (List ℕ) → W → Progress × W
  begin_mechanism (mechanism, initial) binding w =
      if same mechanism (codes "PLAIN")
      then handle_plain_begin d initial w
      else if same mechanism (codes "LOGIN")
      then at_once d (handle_login_begin d initial) w
      else if same mechanism (codes "SCRAM-SHA-256")
      then at_once d (handle_scram_begin d initial none) w
      else if same mechanism (codes "SCRAM-SHA-256-PLUS")
      then at_once d (begin_plus initial binding) w
      else (err auth_mechanism_not_supported, w)

  unfoldable pub begin_auth : (args : Text) → (binding : Option (List ℕ)) → W → Progress × W
  begin_auth args binding w = begin_mechanism (mechanism_and_response args) binding w

  -- The step of a state on a text that does not cancel.
  unfoldable pub continue_state : AuthState → Text → W → Progress × W
  continue_state waiting_plain_data text w =
      then_with d (decode d (to_utf8 text)) (verify_plain d) w
  continue_state login_waiting_username text w = at_once d (ask_password d (to_utf8 text)) w
  continue_state (login_waiting_password username) text w =
      then_with d (do bytes ← decode d (to_utf8 text); text_of d bytes)
        (λ password. verify_credentials d username password) w
  continue_state (scram_step state) text w = handle_scram_continue d state text w

  unfoldable pub continue_text : AuthState → Text → W → Progress × W
  continue_text state text w =
      if same text (codes "*") then (err auth_cancelled, w) else continue_state state text w

  unfoldable pub continue_auth : AuthState → (line : List ℕ) → W → Progress × W
  continue_auth state line w =
      then_with d (text_of d line) (λ text. continue_text state (trim text)) w
