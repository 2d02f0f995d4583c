-- ===== src/Abuse/Store.antt =====
-- What the guards of crates/sentio-abuse/src rely on of the store, while no key expires, nobody else
-- writes, and the clock stands.
use sentio.Common.{ℕ, suc, ◌<◌, ◌^◌, Option, none, some, ◌≡◌, is_some, if◌then◌else◌, ok}
use sentio.Common.Text.{Text, same, decimal}
use sentio.Abuse.Types.{AbuseDeps}

pub record IsStore {F W : Type 0} (d : AbuseDeps F W) (value : W → Text → Option Text)
    : Type 0 where
  pub exists_value : (key : Text) (w : W) → (d.redis.exists key w).0 ≡ ok (is_some (value w key))
  pub exists_keeps :
      (key other : Text) (w : W) → value (d.redis.exists key w).1 other ≡ value w other
  pub get_value : (key : Text) (w : W) → (d.redis.get_opt key w).0 ≡ ok (value w key)
  pub get_keeps : (key other : Text) (w : W) → value (d.redis.get_opt key w).1 other ≡ value w other
  pub set_value :
      (key text other : Text) (secs : ℕ) (w : W)
      → value (d.redis.set_ex key text secs w).1 other
        ≡ (if same key other then some text else value w other)
  pub incr_first : (key : Text) (w : W) → value w key ≡ none → (d.redis.incr key w).0 ≡ ok 1
  pub incr_next :
      (key : Text) (n : ℕ) (w : W)
      → value w key ≡ some (decimal n)
      → suc n < 2 ^ 63
      → (d.redis.incr key w).0 ≡ ok (suc n)
  pub incr_value :
      (key other : Text) (n : ℕ) (w : W)
      → (d.redis.incr key w).0 ≡ ok n
      → value (d.redis.incr key w).1 other
        ≡ (if same key other then some (decimal n) else value w other)
  pub expire_keeps :
      (key other : Text) (secs : ℕ) (w : W)
      → value (d.redis.expire key secs w).1 other ≡ value w other
  pub set_now :
      (key text : Text) (secs : ℕ) (w : W) → d.now (d.redis.set_ex key text secs w).1 ≡ d.now w
  pub get_now : (key : Text) (w : W) → d.now (d.redis.get_opt key w).1 ≡ d.now w
  pub incr_now : (key : Text) (w : W) → d.now (d.redis.incr key w).1 ≡ d.now w
  pub expire_now : (key : Text) (secs : ℕ) (w : W) → d.now (d.redis.expire key secs w).1 ≡ d.now w
