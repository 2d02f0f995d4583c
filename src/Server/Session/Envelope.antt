-- ===== src/Server/Session/Envelope.antt =====
-- The handlers that set up an envelope: EHLO, HELO, MAIL, RCPT, RSET, QUIT, XCLIENT and STARTTLS
-- of crates/sentio-smtp-server/src/session.rs. A handler returns its reply and the new session.
use sentio.Common.{
  ℕ, Bool, true, false, not, ◌&&◌, ◌||◌, List, [], ◌∷◌, ◌++◌, Option, none, some, length, ltb, leb,
  ◌==◌, if◌then◌else◌, is_some,
}
use sentio.Common.Text.{
  Text, codes, is_empty, starts_with, contains, rsplit_once, eq_ignore_ascii_case,
}
use sentio.Server.Response.{
  SmtpResponse, new, ehlo, helo, ok_reply, mail_ok, rcpt_ok, bye, command_not_recognized,
  syntax_error, bad_sequence, too_many_recipients, message_too_large, tls_not_available,
  too_many_messages,
}
use sentio.Server.Validation.{has_non_ascii, is_valid_ehlo_domain}
use sentio.Server.Commands.Types.{MailFromParams, RcptToParams, XClientParams, IpAddr}
use sentio.Server.Extensions
use sentio.Server.Extensions.{Extensions}
use sentio.Server.Session.Types.{
  connected, greeted, mail_from, rcpt_to, done, SessionDeps, Session, AuthResult, reset_envelope,
  is_greeted, is_connected, takes_rcpt, is_smtps, is_smtp,
}

-- `haystack.contains(needle)`.
unfoldable pub contains_text : Text → Text → Bool
unfolding starts_with
contains_text needle [] = is_empty needle
contains_text needle (c ∷ s) = starts_with needle (c ∷ s) || contains_text needle s

unfoldable pub contains_ip : List IpAddr → IpAddr → Bool
contains_ip [] a = false
contains_ip (ip ∷ ips) a = ip == a || contains_ip ips a

unfoldable pub smtputf8_of : Option MailFromParams → Bool
smtputf8_of none = true
smtputf8_of (some mf) = mf.smtputf8

-- `if let Some(a) = o { x = a }`.
abbrev or_keep {ℓ} : {B : Type ℓ} → Option B → B → B
or_keep none b = b
or_keep (some a) b = a

abbrev or_keep_some {ℓ} : {B : Type ℓ} → Option B → Option B → Option B
or_keep_some none b = b
or_keep_some (some a) b = some a

module _ {A : Type 0} where
  -- The extensions that EHLO offers in the session's present state.
  unfoldable pub offered : Session A → Extensions
  unfolding contains_ip
  offered s =
      let ext = s.config.extensions in
      let ext1 = if s.tls_active then Extensions.clear ext Extensions.starttls else ext in
      let ext2 =
        if not s.tls_active && not (is_smtps s.listener_mode)
        then Extensions.clear ext1 Extensions.auth
        else ext1 in
      let ext3 = if is_some s.authenticated then Extensions.clear ext2 Extensions.auth else ext2 in
      if s.config.xclient_enabled && contains_ip s.config.xclient_allowed_ips s.peer_addr
      then Extensions.set ext3 Extensions.xclient
      else ext3

  unfoldable pub mechanisms : Session A → Text
  unfolding contains_text
  mechanisms s =
      if s.tls_active
        && is_some s.config.tls_server_cert_hash
        && contains_text (codes "SCRAM-SHA-256") s.config.auth_mechanisms
        && not (contains_text (codes "SCRAM-SHA-256-PLUS") s.config.auth_mechanisms)
      then s.config.auth_mechanisms ++ codes " SCRAM-SHA-256-PLUS"
      else s.config.auth_mechanisms

  unfoldable pub refuses_domain : Session A → Text → Bool
  refuses_domain s domain = s.config.strict_ehlo_validation && not (is_valid_ehlo_domain domain)

  -- The session that has just been greeted by `domain`.
  unfoldable pub greet : Session A → Text → Session A
  unfolding reset_envelope
  greet s domain = record (reset_envelope s) { state = greeted; client_domain = some domain }

  unfoldable pub handle_ehlo : Session A → Text → SmtpResponse × Session A
  unfolding greet
  handle_ehlo s domain = if refuses_domain s domain then (syntax_error, s) else (
    ehlo s.config.hostname (
        Extensions.ehlo_lines (offered (greet s domain)) s.config.max_message_size
          (mechanisms (greet s domain))),
    greet s domain,
  )

  unfoldable pub handle_helo : Session A → Text → SmtpResponse × Session A
  unfolding greet
  handle_helo s domain =
      if refuses_domain s domain
      then (syntax_error, s)
      else (helo s.config.hostname, greet s domain)

  -- A bare "postmaster" gets the domain of the server.
  unfoldable pub complete_path : Session A → Text → Text
  complete_path s path =
      if not (contains b'@' path) && eq_ignore_ascii_case path (codes "postmaster")
      then codes "postmaster@" ++ s.config.hostname
      else path

  unfoldable pub handle_rcpt_to : Session A → RcptToParams → SmtpResponse × Session A
  unfolding smtputf8_of
  handle_rcpt_to s params =
      if not (takes_rcpt s.state)
      then (bad_sequence, s)
      else if leb s.config.max_recipients (length s.rcpt_to)
      then (too_many_recipients, s)
      else if has_non_ascii params.path && not (smtputf8_of s.mail_from)
      then (syntax_error, s)
      else (
        rcpt_ok,
        record s {
          rcpt_to = s.rcpt_to ++ record params { path = complete_path s params.path } ∷ [];
          state = rcpt_to;
        },
      )

  unfoldable pub handle_quit : Session A → SmtpResponse × Session A
  handle_quit s = (bye, record s { state = done })

  unfoldable pub handle_rset : Session A → SmtpResponse × Session A
  unfolding reset_envelope
  handle_rset s =
      if is_connected s.state
      then (ok_reply, s)
      else (ok_reply, record (reset_envelope s) { state = greeted })

  unfoldable pub handle_xclient : Session A → XClientParams → SmtpResponse × Session A
  unfolding reset_envelope
  handle_xclient s params =
      if not s.config.xclient_enabled
      then (new 550 (some (codes "5.5.0")) (codes "XCLIENT not available"), s)
      else if not (contains_ip s.config.xclient_allowed_ips s.peer_addr)
      then (new 550 (some (codes "5.7.1")) (codes "Not authorized"), s)
      else if not (is_greeted s.state)
      then (bad_sequence, s)
      else (
        new 220 (some (codes "2.0.0")) (codes "OK"),
        record (reset_envelope s) {
          peer_addr = or_keep params.addr s.peer_addr;
          client_domain = or_keep_some params.helo (or_keep_some params.name s.client_domain);
          state = connected;
        },
      )

  -- `none` is `CommandResult::StartTls`, which changes nothing.
  unfoldable pub handle_starttls : Session A → Option SmtpResponse
  handle_starttls s =
      if s.tls_active
      then some command_not_recognized
      else if not (Extensions.has s.config.extensions Extensions.starttls)
      then some command_not_recognized
      else if not (is_greeted s.state)
      then some bad_sequence
      else if not s.config.tls_available
      then some tls_not_available
      else none

-- The domain check of a sender on a submission port; `false` is its refusal. An address with no
-- `@`, a session that is not authenticated and a server with no check pass.
module _ {A W : Type 0} (d : SessionDeps A W) where
  unfoldable pub run_domain_check :
      Option (ℕ → Text → W → Bool × W) → Option AuthResult → Text → W → Bool × W
  run_domain_check none _ path w = (true, w)
  run_domain_check (some check) none path w = (true, w)
  run_domain_check (some check) (some auth_result) path w = elim (rsplit_once b'@' path) [
    | none ↦ (true, w)
    | some (local_part, domain) ↦ check auth_result.tenant_id domain w
  ]

  unfoldable pub sender_allowed : Session A → MailFromParams → W → Bool × W
  unfolding run_domain_check
  sender_allowed s params w =
      if not (is_smtp s.listener_mode) && not (is_empty params.path)
      then run_domain_check d.domain_check s.authenticated params.path w
      else (true, w)

  abbrev pub exceeds : Option ℕ → ℕ → Bool
  exceeds none max = false
  exceeds (some declared) max = ltb max declared

  unfoldable pub handle_mail_from : Session A → MailFromParams → W → SmtpResponse × Session A × W
  handle_mail_from s params w =
      if not (is_greeted s.state)
      then (bad_sequence, s, w)
      else if leb s.config.max_messages s.message_count
      then (too_many_messages, record s { state = done }, w)
      else if exceeds params.size s.config.max_message_size
      then (message_too_large, s, w)
      else if has_non_ascii params.path && not params.smtputf8
      then (syntax_error, s, w)
      else (let (allowed, w') = sender_allowed s params w in
          if allowed
          then (mail_ok, record s { mail_from = some params; rcpt_to = []; state = mail_from }, w')
          else (
            new 553 (some (codes "5.7.1")) (codes "Sender domain not authorized for this account"),
            s,
            w',
          ))
