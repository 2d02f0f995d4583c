-- ===== src/Server/Session/Invariant/Messages.antt =====
-- DATA, BDAT and AUTH of session.rs keep the invariant of a session.
use sentio.Common.{
  ℕ, ◌+◌, ◌≤◌, ◌<◌, Bool, true, false, ◌||◌, List, none, some, ◌≡◌, refl, arith, length,
  length-append, Result, ok, err,
}
use sentio.Common.Text.{Text}
use sentio.Server.Response.{SmtpResponse, start_data}
use sentio.Server.Reader
use sentio.Server.Reader.{ReadError, io, line_too_long}
use sentio.Server.Reader.Exact.{length-read_exact_bytes}
use sentio.Server.Session.Types.{
  Session, SessionDeps, AuthProgress, complete, challenge, is_smtps, takes_bdat, data_state,
  write_response,
}
use sentio.Server.Session.Messages.{
  with_input, data_reading, chunk_reading, after_data, handle_data, handle_bdat, after_chunk,
  refuse_chunk,
}
use sentio.Server.Session.Login.{cb_data, after_auth, handle_auth_begin, handle_auth_data}
use sentio.Server.Session.Invariant.{IsValid}

module _ {A W : Type 0} (d : SessionDeps A W) where
  pub after_data-IsValid :
      (s : Session A) (r : Result ReadError (List ℕ)) (w : W)
      → IsValid s
      → s.message_count < s.config.max_messages
      → IsValid (after_data d s r w).1
  unfolding after_data
  after_data-IsValid s (ok bytes) w v h = ground arith
  after_data-IsValid s (err line_too_long) w v h = ground arith
  after_data-IsValid s (err io) w v h = ground arith
  after_data-IsValid s (err Reader.timeout) w v h = ground arith

  pub handle_data-IsValid : (s : Session A) (w : W) → IsValid s → IsValid (handle_data d s w).1
  unfolding handle_data
  handle_data-IsValid s w v =
      let s' = (write_response (record s { state = data_state }) start_data).1 in
      ground
        (arith, after_data-IsValid (with_input s' (data_reading d s')) (data_reading d s').result w)

  refuse_chunk-IsValid :
      (s : Session A) (r : Result ReadError (List ℕ)) (w : W)
      → IsValid s
      → IsValid (refuse_chunk d s r w).1
  unfolding refuse_chunk
  refuse_chunk-IsValid s (ok bytes) w v = ground arith
  refuse_chunk-IsValid s (err e) w v = ground arith

  after_chunk-IsValid :
      (s : Session A) (last : Bool) (r : Result ReadError (List ℕ)) (w : W)
      → IsValid s
      → takes_bdat s.state ≡ true
      → ((bytes : List ℕ)
          → r ≡ ok bytes
          → length s.bdat_data + length bytes ≤ s.config.max_message_size)
      → IsValid (after_chunk d s last r w).1
  unfolding after_chunk
  after_chunk-IsValid s false (ok chunk) w v h fits =
      ground (arith, fits chunk refl, length-append s.bdat_data chunk)
  after_chunk-IsValid s true (ok chunk) w v h fits = ground arith
  after_chunk-IsValid s last (err line_too_long) w v h fits = ground arith
  after_chunk-IsValid s last (err io) w v h fits = ground arith
  after_chunk-IsValid s last (err Reader.timeout) w v h fits = ground arith

  pub handle_bdat-IsValid :
      (s : Session A) (size : ℕ) (last : Bool) (w : W)
      → IsValid s
      → IsValid (handle_bdat d s size last w).1
  unfolding handle_bdat
  handle_bdat-IsValid s size last w v =
      let r = chunk_reading d s size in
      ground (
        arith,
        refuse_chunk-IsValid (with_input s r) r.result w,
        after_chunk-IsValid (with_input s r) last r.result w,
        λ (bytes : List ℕ) (e : r.result ≡ ok bytes).
            length-read_exact_bytes size s.read_buf s.pending e,
      )

  pub after_auth-IsValid :
      (s : Session A) (r : Result SmtpResponse (AuthProgress A)) (w : W)
      → IsValid s
      → s.auth_state ≡ none
      → s.auth_attempts < s.config.max_auth_attempts
      → (s.tls_active || is_smtps s.listener_mode) ≡ true
      → IsValid (after_auth d s r w).1
  unfolding after_auth
  after_auth-IsValid s (ok (complete result)) w v n h t = ground arith
  after_auth-IsValid s (ok (challenge a r)) w v n h t = ground arith
  after_auth-IsValid s (err r) w v n h t = ground arith

  pub handle_auth_begin-IsValid :
      (s : Session A) (args : Text) (w : W)
      → IsValid s
      → s.auth_state ≡ none
      → IsValid (handle_auth_begin d s args w).1
  unfolding handle_auth_begin
  handle_auth_begin-IsValid s args w v n =
      let p = d.begin_auth args (cb_data d s) w in ground (arith, after_auth-IsValid s p.0 p.1)

  pub handle_auth_data-IsValid :
      (s : Session A) (a : A) (line : List ℕ) (w : W)
      → IsValid s
      → s.auth_state ≡ some a
      → IsValid (handle_auth_data d s a line w).1
  unfolding handle_auth_data
  handle_auth_data-IsValid s a line w v n =
      let p = d.continue_auth a line (cb_data d s) w in
      ground (arith, n, after_auth-IsValid (record s { auth_state = none }) p.0 p.1)
