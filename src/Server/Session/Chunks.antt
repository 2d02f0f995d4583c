-- ===== src/Server/Session/Chunks.antt =====
-- BDAT in session.rs takes its chunks from the stream in order.
mod Tests
use sentio.Common.{
  ℕ, ◌+◌, ◌^◌, ◌≤◌, ◌<◌, Bool, true, false, List, ◌++◌, Option, ◌≡◌, arith, take, length, Result,
  ok,
}
use sentio.Server.Extensions
use sentio.Server.Reader.Stream.{arriving}
use sentio.Server.Reader.Complete.{read_exact_bytes_takes}
use sentio.Server.Session.Types.{Session, SessionDeps, bdat, takes_bdat}
use sentio.Server.Session.Messages.{
  chunk_reading, with_input, inbound_message, run_processor, deliver, after_chunk, handle_bdat,
}

-- The bytes that the session has received or will receive.
abbrev pub stream_of : {A : Type 0} → Session A → List ℕ
stream_of s = s.read_buf ++ arriving s.pending

-- A chunk that may come: in the right state, within the limit, and there on the stream.
pub record IsWelcomeChunk {A : Type 0} (s : Session A) (size : ℕ) : Type 0 where
  pub state : takes_bdat s.state ≡ true
  pub offered : Extensions.has s.config.extensions Extensions.chunking ≡ true
  pub representable : size < 2 ^ 63
  pub fits : length s.bdat_data + size ≤ s.config.max_message_size
  pub arrives : size ≤ length (stream_of s)

module _ {A W : Type 0} (d : SessionDeps A W) where
  -- A chunk that may come and is not the last one is put behind the chunks before it, and the session
  -- waits for the next one.
  pub handle_bdat_appends :
      (s : Session A) (size : ℕ) (w : W)
      → IsWelcomeChunk s size
      → (handle_bdat d s size false w).1.bdat_data ≡ s.bdat_data ++ take size (stream_of s)
        × ((handle_bdat d s size false w).1.state ≡ bdat)
  unfolding handle_bdat after_chunk
  handle_bdat_appends s size w h =
      ground (arith, h, read_exact_bytes_takes size s.read_buf s.pending h.arrives)

  -- At the last chunk, if it may come, the processor gets all the chunks, in the order in which they
  -- came.
  pub handle_bdat_delivers :
      (s : Session A) (size : ℕ) (w : W)
      → IsWelcomeChunk s size
      → (handle_bdat d s size true w).2
        ≡ (run_processor d d.message_processor
            (inbound_message s (s.bdat_data ++ take size (stream_of s)))
            w).1
  unfolding handle_bdat after_chunk deliver inbound_message
  handle_bdat_delivers s size w h =
      ground (arith, h, read_exact_bytes_takes size s.read_buf s.pending h.arrives)
