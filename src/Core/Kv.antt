-- ===== src/Core/Kv.antt =====
-- The key-value store that the guards talk to: `KvConn` of crates/sentio-core/src/kv.rs, and the
-- clock. An operation takes the world and returns the new one.
use sentio.Common.{ℕ, Bool, List, Option, Result}
use sentio.Common.Text.{Text}
use sentio.Core.Error.{SentioError}

-- Integers of `i64` are numbers below 2^64, in two's complement; `F` is `f64`.
pub record KvConn (F W : Type 0) : Type 0 where
  pub get_opt : (key : Text) → W → Result SentioError (Option Text) × W
  pub set_ex : (key value : Text) → (secs : ℕ) → W → Result SentioError (Unit {0}) × W
  pub del : (key : Text) → W → Result SentioError (Unit {0}) × W
  pub exists : (key : Text) → W → Result SentioError Bool × W
  pub incr : (key : Text) → W → Result SentioError ℕ × W
  pub expire : (key : Text) → (secs : ℕ) → W → Result SentioError Bool × W
  pub incr_by_float : (key : Text) → (delta : F) → W → Result SentioError F × W
  pub scan_keys : (pattern : Text) → W → Result SentioError (List Text) × W
  pub ttl : (key : Text) → W → Result SentioError ℕ × W
  pub ping : W → Result SentioError (Unit {0}) × W
