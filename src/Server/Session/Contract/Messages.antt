-- ===== src/Server/Session/Contract/Messages.antt =====
-- DATA and BDAT of session.rs keep what a contract of Contract keeps.
use sentio.Common.{
  ℕ, ◌+◌, ◌≤◌, ◌<◌, Bool, true, false, List, [], ◌++◌, ◌≡◌, refl, arith, length, length-append,
  Result, ok, err,
}
use sentio.Server.Response.{start_data}
use sentio.Server.Reader
use sentio.Server.Reader.{ReadError, io, line_too_long}
use sentio.Server.Reader.Limits.{length-read_data}
use sentio.Server.Reader.Exact.{length-read_exact_bytes}
use sentio.Server.Session.Types.{Session, SessionDeps, data_state, write_response, takes_bdat}
use sentio.Server.Session.Messages.{
  inbound_message, with_input, deliver, data_reading, chunk_reading, after_data, handle_data,
  refuse_chunk, after_chunk, handle_bdat,
}
use sentio.Server.Session.Invariant.{IsValid}
use sentio.Server.Session.Contract.{IsDeliverable, IsContract, inbound_message-IsDeliverable}

module _ {A W : Type 0} (d : SessionDeps A W) (P : ℕ → W → Type 0) where
  -- The property after a handler.
  abbrev pub After : {R : Type 0} → R × Session A × W → Type 0
  After x = P x.1.message_count x.2

  abbrev pub Contracts : Session A → Type 0
  Contracts s = IsContract d P s.config s.listener_mode

  deliver-After :
      (s : Session A) (bytes : List ℕ) (w : W)
      → Contracts s
      → s.message_count < s.config.max_messages
      → IsDeliverable s.config s.listener_mode (inbound_message s bytes)
      → P s.message_count w
      → After (deliver d s bytes w)
  unfolding deliver
  deliver-After s bytes w c h m p = c.processes s.message_count (inbound_message s bytes) w h m p

  after_data-After :
      (s : Session A) (r : Result ReadError (List ℕ)) (w : W)
      → Contracts s
      → s.message_count < s.config.max_messages
      → ((bytes : List ℕ)
          → r ≡ ok bytes
          → IsDeliverable s.config s.listener_mode (inbound_message s bytes))
      → P s.message_count w
      → After (after_data d s r w)
  unfolding after_data
  after_data-After s (ok bytes) w c h m p = deliver-After s bytes w c h (m bytes refl) p
  after_data-After s (err Reader.timeout) w c h m p = p
  after_data-After s (err line_too_long) w c h m p = p
  after_data-After s (err io) w c h m p = p

  pub handle_data-After :
      (s : Session A) (w : W)
      → IsValid s
      → Contracts s
      → P s.message_count w
      → After (handle_data d s w)
  unfolding handle_data write_response
  handle_data-After s w v c p =
      let s' = (write_response (record s { state = data_state }) start_data).1 in
      let r = data_reading d s' in
      ground (
        arith,
        after_data-After (with_input s' r) r.result w c,
        λ (bytes : List ℕ) (e : r.result ≡ ok bytes).
            inbound_message-IsDeliverable (with_input s' r) bytes,
        λ (bytes : List ℕ) (e : r.result ≡ ok bytes).
            length-read_data s.config.max_message_size s.read_buf s.pending e,
      )

  refuse_chunk-After :
      (s : Session A) (r : Result ReadError (List ℕ)) (w : W)
      → P s.message_count w
      → After (refuse_chunk d s r w)
  unfolding refuse_chunk
  refuse_chunk-After s (ok bytes) w p = p
  refuse_chunk-After s (err e) w p = p

  after_chunk-After :
      (s : Session A) (last : Bool) (r : Result ReadError (List ℕ)) (w : W)
      → IsValid s
      → Contracts s
      → takes_bdat s.state ≡ true
      → ((bytes : List ℕ)
          → r ≡ ok bytes
          → length s.bdat_data + length bytes ≤ s.config.max_message_size)
      → P s.message_count w
      → After (after_chunk d s last r w)
  unfolding after_chunk
  after_chunk-After s false (ok chunk) w v c t fits p = p
  after_chunk-After s true (ok chunk) w v c t fits p = ground (
    arith,
    deliver-After (record s { bdat_data = [] }) (s.bdat_data ++ chunk) w c,
    inbound_message-IsDeliverable (record s { bdat_data = [] }) (s.bdat_data ++ chunk),
    fits chunk refl,
    length-append s.bdat_data chunk,
  )
  after_chunk-After s last (err Reader.timeout) w v c t fits p = p
  after_chunk-After s last (err line_too_long) w v c t fits p = p
  after_chunk-After s last (err io) w v c t fits p = p

  pub handle_bdat-After :
      (s : Session A) (size : ℕ) (last : Bool) (w : W)
      → IsValid s
      → Contracts s
      → P s.message_count w
      → After (handle_bdat d s size last w)
  unfolding handle_bdat
  handle_bdat-After s size last w v c p =
      let r = chunk_reading d s size in
      let v' : IsValid (with_input s r) = ground arith in
      ground (
        arith,
        refuse_chunk-After (with_input s r) r.result w p,
        after_chunk-After (with_input s r) last r.result w v' c,
        λ (bytes : List ℕ) (e : r.result ≡ ok bytes).
            length-read_exact_bytes size s.read_buf s.pending e,
      )
