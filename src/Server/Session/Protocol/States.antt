-- ===== src/Server/Session/Protocol/States.antt =====
-- The states before and after each handler of session.rs.
use sentio.Common.{
  none, some, ◌≤◌, ◌≢◌, inl, inr, Option-cases, ◌^◌, ℕ, Bool, true, false, List, ◌≡◌, ◌⊎◌, arith,
  Result, ok, err,
}
use sentio.Common.Text.{Text}
use sentio.Server.Response.{
  SmtpResponse, start_data, syntax_error, ehlo, helo, bad_sequence, command_not_implemented,
  too_many_recipients, rcpt_ok, ok_reply, command_not_recognized, tls_not_available,
  too_many_messages, message_too_large, mail_ok, timeout, service_unavailable, auth_too_many,
  already_authenticated, encryption_required,
}
use sentio.Server.Reader
use sentio.Server.Reader.{ReadError, io, line_too_long}
use sentio.Server.Commands.Types.{MailFromParams, RcptToParams, XClientParams}
use sentio.Server.Session.Types.{
  SessionState, CommandResult, response, upgrade, panicked, takes_bdat, connected, greeted,
  mail_from, rcpt_to, data_state, bdat, done, Session, SessionDeps, AuthProgress, complete,
  challenge, write_response,
}
use sentio.Server.Session.Envelope.{
  handle_ehlo, handle_helo, handle_mail_from, handle_rcpt_to, handle_rset, handle_xclient,
  handle_starttls,
}
use sentio.Server.Session.Messages.{
  with_input, data_reading, after_data, handle_data, chunk_reading, refuse_chunk, after_chunk,
  handle_bdat,
}
use sentio.Server.Session.Login.{cb_data, handle_auth_failure, after_auth, handle_auth_begin}

-- An error that leaves the state as it was.
abbrev pub IsRefusal : (s t : SessionState) → SmtpResponse → Type 0
IsRefusal s t r = (400 ≤ r.code) × (t ≡ s)

-- A reply with a code, and the state behind it.
abbrev pub Comes : (code : ℕ) → (t' t : SessionState) → SmtpResponse → Type 0
Comes code t' t r = (r.code ≡ code) × (t ≡ t')

-- What becomes of a chunk that may come.
abbrev pub ChunkComes : (last : Bool) → (t : SessionState) → SmtpResponse → Type 0
ChunkComes last t r =
    ((last ≡ false) × Comes 250 bdat t r)
    ⊎ (((last ≡ true) × (t ≡ greeted)) ⊎ (Comes 552 greeted t r ⊎ Comes 421 done t r))

-- What BDAT comes to.
abbrev pub BdatComes : (s t : SessionState) → (size : ℕ) → (last : Bool) → CommandResult → Type 0
BdatComes s t size last upgrade = ⊥
BdatComes s t size last panicked = (takes_bdat s ≡ true) × (2 ^ 63 ≤ size) × (t ≡ s)
BdatComes s t size last (response r) =
    IsRefusal s t r ⊎ ((takes_bdat s ≡ true) × ChunkComes last t r)

module _ {A : Type 0} where
  pub handle_ehlo_state :
      (s : Session A) (domain : Text)
      → let (r, s') = handle_ehlo s domain in
        IsRefusal s.state s'.state r ⊎ Comes 250 greeted s'.state r
  unfolding handle_ehlo syntax_error ehlo
  handle_ehlo_state s domain = ground arith

  pub handle_helo_state :
      (s : Session A) (domain : Text)
      → let (r, s') = handle_helo s domain in
        IsRefusal s.state s'.state r ⊎ Comes 250 greeted s'.state r
  unfolding handle_helo syntax_error helo
  handle_helo_state s domain = ground arith

  pub handle_rcpt_to_state :
      (s : Session A) (params : RcptToParams)
      → let (r, s') = handle_rcpt_to s params in
        IsRefusal s.state s'.state r
        ⊎ (((s.state ≡ mail_from) ⊎ (s.state ≡ rcpt_to)) × Comes 250 rcpt_to s'.state r)
  unfolding handle_rcpt_to bad_sequence too_many_recipients syntax_error rcpt_ok
  handle_rcpt_to_state s params = ground arith

  pub handle_rset_state :
      (s : Session A)
      → let (r, s') = handle_rset s in
        ((s.state ≡ connected) × Comes 250 connected s'.state r)
        ⊎ ((s.state ≢ connected) × Comes 250 greeted s'.state r)
  unfolding handle_rset ok_reply
  handle_rset_state s = ground arith

  pub handle_xclient_state :
      (s : Session A) (params : XClientParams)
      → let (r, s') = handle_xclient s params in
        IsRefusal s.state s'.state r ⊎ ((s.state ≡ greeted) × Comes 220 connected s'.state r)
  unfolding handle_xclient bad_sequence
  handle_xclient_state s params = ground arith

  pub handle_starttls_state :
      (s : Session A)
      → ((r : SmtpResponse) × (handle_starttls s ≡ some r) × (400 ≤ r.code))
        ⊎ ((handle_starttls s ≡ none) × (s.state ≡ greeted))
  unfolding handle_starttls command_not_recognized bad_sequence tls_not_available
  handle_starttls_state s = elim (Option-cases (handle_starttls s)) [
    | inl n ↦ inr (n, ground (arith, n))
    | inr (r, e) ↦ inl (r, e, ground (arith, e))
  ]

module _ {A W : Type 0} (d : SessionDeps A W) where
  pub handle_mail_from_state :
      (s : Session A) (params : MailFromParams) (w : W)
      → let (r, s', w') = handle_mail_from d s params w in
        IsRefusal s.state s'.state r
        ⊎ ((s.state ≡ greeted) × (Comes 250 mail_from s'.state r ⊎ Comes 421 done s'.state r))
  unfolding handle_mail_from bad_sequence too_many_messages message_too_large syntax_error mail_ok
  handle_mail_from_state s params w = ground arith

  after_data_state :
      (s : Session A) (o : Result ReadError (List ℕ)) (w : W)
      → let (r, s', w') = after_data d s o w in (s'.state ≡ greeted) ⊎ Comes 421 done s'.state r
  unfolding after_data timeout service_unavailable
  after_data_state s (ok bytes) w = ground arith
  after_data_state s (err Reader.timeout) w = ground arith
  after_data_state s (err line_too_long) w = ground arith
  after_data_state s (err io) w = ground arith

  pub handle_data_state :
      (s : Session A) (w : W)
      → let (r, s', w') = handle_data d s w in
        IsRefusal s.state s'.state r
        ⊎ ((s.state ≡ rcpt_to)
            × ((s'.state ≡ greeted)
                ⊎ (Comes 421 done s'.state r ⊎ Comes 421 data_state s'.state r)))
  unfolding handle_data write_response bad_sequence service_unavailable
  handle_data_state s w =
      let s' = (write_response (record s { state = data_state }) start_data).1 in
      let r = data_reading d s' in ground (arith, after_data_state (with_input s' r) r.result w)

  refuse_chunk_state :
      (s : Session A) (last : Bool) (o : Result ReadError (List ℕ)) (w : W)
      → ChunkComes last (refuse_chunk d s o w).1.state (refuse_chunk d s o w).0
  unfolding refuse_chunk message_too_large service_unavailable
  refuse_chunk_state s last (ok bytes) w = ground arith
  refuse_chunk_state s last (err e) w = ground arith

  after_chunk_state :
      (s : Session A) (last : Bool) (o : Result ReadError (List ℕ)) (w : W)
      → ChunkComes last (after_chunk d s last o w).1.state (after_chunk d s last o w).0
  unfolding after_chunk ok_reply timeout service_unavailable
  after_chunk_state s false (ok bytes) w = ground arith
  after_chunk_state s true (ok bytes) w = ground arith
  after_chunk_state s last (err Reader.timeout) w = ground arith
  after_chunk_state s last (err line_too_long) w = ground arith
  after_chunk_state s last (err io) w = ground arith

  pub handle_bdat_state :
      (s : Session A) (size : ℕ) (last : Bool) (w : W)
      → BdatComes s.state
          (handle_bdat d s size last w).1.state
          size
          last
          (handle_bdat d s size last w).0
  unfolding handle_bdat bad_sequence command_not_implemented
  handle_bdat_state s size last w =
      let r = chunk_reading d s size in
      ground (
        arith,
        refuse_chunk_state (with_input s r) last r.result w,
        after_chunk_state (with_input s r) last r.result w,
      )

  after_auth_state :
      (s : Session A) (o : Result SmtpResponse (AuthProgress A)) (w : W)
      → let (r, s', w') = after_auth d s o w in (s'.state ≡ s.state) ⊎ Comes 421 done s'.state r
  unfolding after_auth handle_auth_failure auth_too_many
  after_auth_state s (ok (complete result)) w = ground arith
  after_auth_state s (ok (challenge a r)) w = ground arith
  after_auth_state s (err r) w = ground arith

  pub handle_auth_begin_state :
      (s : Session A) (args : Text) (w : W)
      → let (r, s', w') = handle_auth_begin d s args w in
        IsRefusal s.state s'.state r
        ⊎ (((s.state ≢ mail_from) × (s.state ≢ rcpt_to))
            × ((s'.state ≡ s.state) ⊎ Comes 421 done s'.state r))
  unfolding handle_auth_begin already_authenticated bad_sequence encryption_required
      command_not_recognized auth_too_many
  handle_auth_begin_state s args w =
      let p = d.begin_auth args (cb_data d s) w in ground (arith, after_auth_state s p.0 p.1)
