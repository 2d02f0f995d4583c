-- ===== src/Server/Session/Login.antt =====
-- AUTH: `handle_auth_begin`, `handle_auth_data` and `handle_auth_failure` of
-- crates/sentio-smtp-server/src/session.rs.
use sentio.Common.{
  ℕ, ◌+◌, Bool, not, ◌&&◌, List, Option, none, some, ltb, leb, if◌then◌else◌, is_some, Result, ok,
  err,
}
use sentio.Common.Text.{Text}
use sentio.Server.Response.{
  SmtpResponse, command_not_recognized, bad_sequence, auth_success, encryption_required,
  auth_too_many, already_authenticated,
}
use sentio.Server.Extensions
use sentio.Server.Session.Types.{
  done, AuthProgress, complete, challenge, SessionDeps, Session, refuses_auth, is_smtps,
}

module _ {A W : Type 0} (d : SessionDeps A W) where
  -- A transient failure (4xx) does not count as an attempt.
  abbrev pub is_transient : SmtpResponse → Bool
  is_transient response = leb 400 response.code && ltb response.code 500

  unfoldable pub handle_auth_failure : Session A → SmtpResponse → W → SmtpResponse × Session A × W
  handle_auth_failure s response w =
      if is_transient response
      then (response, s, w)
      else if leb s.config.max_auth_attempts (s.auth_attempts + 1)
      then (
        auth_too_many,
        record s { auth_attempts = s.auth_attempts + 1; state = done },
        d.on_auth_failure s.peer_addr w,
      )
      else (
        response,
        record s { auth_attempts = s.auth_attempts + 1 },
        d.on_auth_failure s.peer_addr w,
      )

  -- The `match` on the progress of the exchange.
  unfoldable pub after_auth :
      Session A → Result SmtpResponse (AuthProgress A) → W → SmtpResponse × Session A × W
  unfolding handle_auth_failure
  after_auth s (ok (complete result)) w =
      (auth_success, record s { authenticated = some result }, d.on_auth_success s.peer_addr w)
  after_auth s (ok (challenge state response)) w =
      (response, record s { auth_state = some state }, w)
  after_auth s (err response) w = handle_auth_failure s response w

  abbrev pub cb_data : Session A → Option (List ℕ)
  cb_data s = if s.tls_active then s.config.tls_server_cert_hash else none

  unfoldable pub handle_auth_begin : Session A → Text → W → SmtpResponse × Session A × W
  handle_auth_begin s args w =
      if is_some s.authenticated
      then (already_authenticated, s, w)
      else if refuses_auth s.state
      then (bad_sequence, s, w)
      else if not s.tls_active && not (is_smtps s.listener_mode)
      then (encryption_required, s, w)
      else if not (Extensions.has s.config.extensions Extensions.auth)
      then (command_not_recognized, s, w)
      else if leb s.config.max_auth_attempts s.auth_attempts
      then (auth_too_many, s, w)
      else (let (progress, w') = d.begin_auth args (cb_data s) w in after_auth s progress w')

  -- A line of an exchange that is under way; `state` is taken out of the session first.
  unfoldable pub handle_auth_data : Session A → A → List ℕ → W → SmtpResponse × Session A × W
  handle_auth_data s state line w =
      let (progress, w') = d.continue_auth state line (cb_data s) w in
      after_auth (record s { auth_state = none }) progress w'
