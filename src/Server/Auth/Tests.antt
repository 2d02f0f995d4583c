-- ===== src/Server/Auth/Tests.antt =====
-- Tests and witnesses for auth.rs.
use sentio.Common.{ℕ, List, ◌∷◌, [], ◌++◌, true, Option, none, some, ◌≡◌, ◌↔◌, refl, arith, ok, err}
use sentio.Common.Text.{
  Text, codes, same, split, split_once, trim, trim_start, trim_end, is_whitespace, to_ascii_upper,
  to_ascii_uppercase,
}
use sentio.Common.Utf8.{from_utf8, utf8_run, utf8_step, first_byte}
use sentio.Common.Utf8.Encode.{to_utf8, encode_char}
use sentio.Server.Response.{auth_challenge, auth_continue, auth_failed, auth_cancelled}
use sentio.Server.Session.Types.{complete, challenge}
use sentio.Server.Auth.Types.{scram_step, constant_time_eq}
use sentio.Server.Auth.Scram.{empty_state}
use sentio.Server.Auth.Exchange.{
  mechanism_and_response, initial_response, begin_mechanism, begin_auth, continue_text,
  continue_auth,
}
use sentio.Server.Auth.Passwords.{
  decode, text_of, handle_plain_begin, verify_plain, plain_parts, verify_credentials, check_account,
  check_password, verify_argon2,
}
use sentio.Server.Auth.Types.{AuthState}
use sentio.Server.Extensions
use sentio.Server.Reader.{got}
use sentio.Server.Session.Types.{Connection, Session, SessionDeps, new_session, smtps}
use sentio.Server.Session.Loop.{Round, died, run}
use sentio.Server.Session.Samples.{config, line}
use sentio.Server.Auth.Accounts.Sessions.{with_sasl}
use sentio.Server.Auth.Bytes.{constant_time_eq_iff}
use sentio.Server.Auth.Completes.{sent}
use sentio.Server.Auth.Completes.Final.{client_final}
use sentio.Server.Auth.Completes.Whole.{client_first, challenged, scram_exchange}
use sentio.Server.Auth.Samples.{
  key, account, sasl, sasl-IsFaithful, account-HasKeys, letters, unletters, low_bytes,
}

abbrev tag : List ℕ
tag = 1 ∷ 200 ∷ []

constant_time_eq_iff_example : (constant_time_eq tag key ≡ true) ↔ (tag ≡ key)
constant_time_eq_iff_example = constant_time_eq_iff tag key

abbrev me : Text
me = codes "me@mx.org"

scram_exchange_example :
    let state =
      challenged sasl me
        (codes "n0")
        (letters (low_bytes key))
        (codes "QQ")
        (codes "AB")
        4096
        account
        (1 ∷ 200 ∷ []) in
    (begin_auth sasl (codes "SCRAM-SHA-256") none 0
      ≡ (ok (challenge (scram_step (empty_state none)) auth_continue), 0))
    × (continue_auth sasl
          (scram_step (empty_state none))
          (sent sasl sasl-IsFaithful (client_first me (codes "n0")))
          0
        ≡ (
          ok (challenge (scram_step state) (auth_challenge (letters (to_utf8 state.server_first)))),
          1,
        ))
    × (continue_auth sasl
          (scram_step state)
          (sent sasl sasl-IsFaithful (client_final sasl key state (codes "n,,")))
          1
        ≡ (ok (complete (record { username = me; tenant_id = 4 })), 1))
unfolding same
scram_exchange_example =
    scram_exchange sasl sasl-IsFaithful me (codes "n0") (codes "QQ") (codes "AB") 4096 account key 0
      1 (omega arith) (omega arith) (refl, omega arith) refl account-HasKeys

-- PLAIN with the right and with a wrong password, and a client that gives up.
plain_accepted :
    begin_auth sasl (codes "plain " ++ letters (0 ∷ (me ++ (0 ∷ codes "secret")))) none 0
    ≡ (ok (complete (record { username = me; tenant_id = 4 })), 1)
unfolding letters unletters begin_auth begin_mechanism same mechanism_and_response initial_response
    split_once to_ascii_uppercase to_ascii_upper trim trim_start trim_end is_whitespace
    handle_plain_begin decode to_utf8 encode_char verify_plain plain_parts split text_of from_utf8
    utf8_run utf8_step first_byte verify_credentials check_account check_password verify_argon2
plain_accepted = refl

plain_refused :
    begin_auth sasl (codes "PLAIN " ++ letters (0 ∷ (me ++ (0 ∷ codes "guess")))) none 0
    ≡ (err auth_failed, 1)
unfolding letters unletters begin_auth begin_mechanism same mechanism_and_response initial_response
    split_once to_ascii_uppercase to_ascii_upper trim trim_start trim_end is_whitespace
    handle_plain_begin decode to_utf8 encode_char verify_plain plain_parts split text_of from_utf8
    utf8_run utf8_step first_byte verify_credentials check_account check_password verify_argon2
plain_refused = refl

cancelled :
    continue_auth sasl (scram_step (empty_state none)) (codes " *") 0 ≡ (err auth_cancelled, 0)
unfolding continue_auth continue_text text_of from_utf8 utf8_run utf8_step first_byte trim
    trim_start trim_end is_whitespace same
cancelled = refl

-- A session under TLS, in which the user logs in by PLAIN.
abbrev callbacks : SessionDeps AuthState ℕ
callbacks = record {
  begin_auth = λ args cb w. (err auth_failed, w);
  continue_auth = λ a line cb w. (err auth_failed, w);
  on_auth_failure = λ peer w. w;
  on_auth_success = λ peer w. w;
  message_processor = none;
  domain_check = none;
  parse_ip = λ s. none;
  now = λ w. 0;
}

abbrev login : Connection
login = record {
  shutdown = [];
  pending =
      got (
        line "EHLO me.org"
        ++ (codes "AUTH PLAIN " ++ (letters (0 ∷ (me ++ (0 ∷ codes "secret"))) ++ line "")))
      ∷ got (line "QUIT")
      ∷ [];
  writes = [];
}

abbrev started : Session AuthState
started = new_session login config 9 smtps true

abbrev ended : Option (Round AuthState ℕ) → Round AuthState ℕ
ended none = died started 0
ended (some r) = r

abbrev session : Round AuthState ℕ
session = ended (run (with_sasl sasl callbacks) 20 started 0)
