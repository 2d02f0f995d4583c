-- ===== src/Server/Session/Messages.antt =====
-- DATA and BDAT, and the hand-over of a message: `handle_data`, `handle_bdat` and `rand_queue_id`
-- of crates/sentio-smtp-server/src/session.rs.
use Prim.Native.Nat.{bit_xor}
use sentio.Common.{
  ℕ, zero, suc, ◌+◌, ◌-◌, ◌*◌, ◌/◌, ◌%◌, ◌^◌, Bool, true, false, not, List, [], ◌∷◌, ◌++◌, Option,
  none, some, map, length, ltb, leb, if◌then◌else◌, Result, ok, err,
}
use sentio.Common.Text.{Text, same, u64_mod}
use sentio.Server.Response.{
  SmtpResponse, ok_reply, start_data, data_ok, command_not_implemented, bad_sequence,
  message_too_large, timeout, service_unavailable, processing_reject, processing_tempfail,
}
use sentio.Server.Commands.Types.{DsnNotify, DsnRet, MailFromParams, RcptToParams}
use sentio.Server.Extensions
use sentio.Server.Reader.{Reading, ReadError, io, line_too_long, read_data, read_exact_bytes}
use sentio.Server.Reader
use sentio.Server.Session.Types.{
  CommandResult, response, panicked, greeted, data_state, bdat, done, AuthResult, InboundMessage,
  ProcessingOutcome, ProcessingError, reject, temp_fail, SessionDeps, Session, reset_envelope,
  write_response, is_rcpt_to, takes_bdat,
}

-- `{:016X}` of a number below 2 ^ 64.
abbrev hex_digit : ℕ → ℕ
hex_digit n = if ltb n 10 then b'0' + n else b'A' + (n - 10)

unfoldable pub hex_from : ℕ → ℕ → Text → Text
hex_from zero n acc = acc
hex_from (suc k) n acc = hex_from k (n / 16) (hex_digit (n % 16) ∷ acc)

-- The queue id at a system time in nanoseconds.
unfoldable pub rand_queue_id : ℕ → ℕ
rand_queue_id nanos =
    bit_xor (nanos % u64_mod) ((nanos / 10 ^ 9) * 6_364_136_223_846_793_005 % u64_mod)

-- `HashMap::insert`.
unfoldable pub insert {ℓ} : {V : Type ℓ} → Text → V → List (Text × V) → List (Text × V)
insert k v [] = (k, v) ∷ []
insert k v ((j, u) ∷ m) = if same j k then (k, v) ∷ m else (j, u) ∷ insert k v m

abbrev insert_some {ℓ} : {V : Type ℓ} → Text → Option V → List (Text × V) → List (Text × V)
insert_some k none m = m
insert_some k (some v) m = insert k v m

unfoldable pub dsn_notify_of : List (Text × DsnNotify) → List RcptToParams → List (Text × DsnNotify)
unfolding insert
dsn_notify_of m [] = m
dsn_notify_of m (rcpt ∷ more) = dsn_notify_of (insert_some rcpt.path rcpt.notify m) more

unfoldable pub dsn_orcpt_of : List (Text × Text) → List RcptToParams → List (Text × Text)
unfolding insert
dsn_orcpt_of m [] = m
dsn_orcpt_of m (rcpt ∷ more) = dsn_orcpt_of (insert_some rcpt.path rcpt.orcpt m) more

abbrev path_of : Option MailFromParams → Text
path_of none = []
path_of (some mf) = mf.path

abbrev ret_of : Option MailFromParams → Option DsnRet
ret_of none = none
ret_of (some mf) = mf.ret

abbrev envid_of : Option MailFromParams → Option Text
envid_of none = none
envid_of (some mf) = mf.envid

abbrev user_of : Option AuthResult → Option Text
user_of none = none
user_of (some a) = some a.username

abbrev pub paths : List RcptToParams → List Text
paths = map λ r. r.path

module _ {A : Type 0} where
  -- The message that the processor gets.
  unfoldable pub inbound_message : Session A → List ℕ → InboundMessage
  unfolding dsn_notify_of dsn_orcpt_of
  inbound_message s bytes = record {
    raw_data = bytes;
    envelope_from = path_of s.mail_from;
    envelope_to = paths s.rcpt_to;
    peer_addr = s.peer_addr;
    client_domain = s.client_domain;
    server_hostname = s.config.hostname;
    authenticated_user = user_of s.authenticated;
    tls_active = s.tls_active;
    max_received_headers = s.config.max_received_headers;
    dsn_ret = ret_of s.mail_from;
    dsn_envid = envid_of s.mail_from;
    dsn_notify = dsn_notify_of [] s.rcpt_to;
    dsn_orcpt = dsn_orcpt_of [] s.rcpt_to;
  }

  -- After a message: the counter, and an empty envelope.
  unfoldable pub finish_message : Session A → Session A
  unfolding reset_envelope
  finish_message s = record (reset_envelope s) {
    message_count = s.message_count + 1;
    state = greeted;
  }

  abbrev pub with_input : {B : Type 0} → Session A → Reading B → Session A
  with_input s r = record s { read_buf = r.read_buf; pending = r.pending }

unfoldable pub reply_to : Result ProcessingError ProcessingOutcome → SmtpResponse
reply_to (ok outcome) = data_ok outcome.queue_id
reply_to (err (reject code enhanced message)) = processing_reject code enhanced message
reply_to (err (temp_fail code enhanced message)) = processing_tempfail code enhanced message

module _ {A W : Type 0} (d : SessionDeps A W) where
  unfoldable pub run_processor :
      Option (InboundMessage → W → Result ProcessingError ProcessingOutcome × W)
      → InboundMessage
      → W
      → SmtpResponse × W
  unfolding reply_to hex_from rand_queue_id
  run_processor none msg w = (data_ok (hex_from 16 (rand_queue_id (d.now w)) []), w)
  run_processor (some processor) msg w = let (r, w') = processor msg w in (reply_to r, w')

  -- The reply to a complete message, and the session after it.
  unfoldable pub deliver : Session A → List ℕ → W → SmtpResponse × Session A × W
  unfolding inbound_message finish_message
  deliver s bytes w =
      let (r, w') = run_processor d.message_processor (inbound_message s bytes) w in
      (r, finish_message s, w')

  -- The `match` on what `read_data` returned.
  unfoldable pub after_data :
      Session A → Result ReadError (List ℕ) → W → SmtpResponse × Session A × W
  unfolding deliver reset_envelope
  after_data s (ok bytes) w = deliver s bytes w
  after_data s (err Reader.timeout) w = (timeout, record s { state = done }, w)
  after_data s (err line_too_long) w =
      (message_too_large, record (reset_envelope s) { state = greeted }, w)
  after_data s (err io) w = (service_unavailable, record s { state = done }, w)

  abbrev pub data_reading : Session A → Reading (List ℕ)
  data_reading s = read_data s.config.max_message_size s.read_buf s.pending

  unfoldable pub handle_data : Session A → W → SmtpResponse × Session A × W
  unfolding write_response
  handle_data s w =
      if not (is_rcpt_to s.state)
      then (bad_sequence, s, w)
      else (let (sent, s') = write_response (record s { state = data_state }) start_data in
          if sent
          then after_data (with_input s' (data_reading s')) (data_reading s').result w
          else (service_unavailable, s', w))

  -- A chunk that would make the message too large is read all the same, and dropped.
  unfoldable pub refuse_chunk :
      Session A → Result ReadError (List ℕ) → W → SmtpResponse × Session A × W
  unfolding reset_envelope
  refuse_chunk s (ok bytes) w =
      (message_too_large, record (reset_envelope s) { state = greeted }, w)
  refuse_chunk s (err e) w = (service_unavailable, record s { state = done }, w)

  -- The `match` on the chunk.
  unfoldable pub after_chunk :
      Session A → (last : Bool) → Result ReadError (List ℕ) → W → SmtpResponse × Session A × W
  unfolding deliver
  after_chunk s false (ok chunk) w =
      (ok_reply, record s { bdat_data = s.bdat_data ++ chunk; state = bdat }, w)
  after_chunk s true (ok chunk) w = deliver (record s { bdat_data = [] }) (s.bdat_data ++ chunk) w
  after_chunk s last (err Reader.timeout) w = (timeout, record s { state = done }, w)
  after_chunk s last (err line_too_long) w = (service_unavailable, record s { state = done }, w)
  after_chunk s last (err io) w = (service_unavailable, record s { state = done }, w)

  abbrev pub chunk_reading : Session A → ℕ → Reading (List ℕ)
  chunk_reading s chunk_size = read_exact_bytes chunk_size s.read_buf s.pending

  abbrev pub replied : SmtpResponse × Session A × W → CommandResult × Session A × W
  replied (r, s, w) = (response r, s, w)

  -- `read_exact_bytes` begins with `Vec::with_capacity(chunk_size)`, which panics above
  -- `isize::MAX`; below it, and with a buffer that is no longer, the sum of the two does not wrap.
  unfoldable pub handle_bdat : Session A → ℕ → Bool → W → CommandResult × Session A × W
  handle_bdat s chunk_size last w =
      if not (takes_bdat s.state)
      then (response bad_sequence, s, w)
      else if not (Extensions.has s.config.extensions Extensions.chunking)
      then (response command_not_implemented, s, w)
      else if leb (2 ^ 63) chunk_size
      then (panicked, s, w)
      else (let r = chunk_reading s chunk_size in
          if ltb s.config.max_message_size (length s.bdat_data + chunk_size)
          then replied (refuse_chunk (with_input s r) r.result w)
          else replied (after_chunk (with_input s r) last r.result w))
