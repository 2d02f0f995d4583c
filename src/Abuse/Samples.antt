-- ===== src/Abuse/Samples.antt =====
-- A store that is a function from keys to values, with a clock, for the tests of crates/sentio-abuse.
use sentio.Common.{
  ℕ, suc, ◌+◌, ◌*◌, ◌-◌, ◌<◌, ◌^◌, true, false, [], ◌∷◌, Option, none, some, ◌≡◌, refl, arith, ltb,
  leb, ◌==◌, is_some, if◌then◌else◌, Result, ok, err, lt→ltb,
}
use sentio.Common.Text.{Text, codes, same, decimal, parse_unsigned}
use sentio.Common.Text.Numbers.{parse_unsigned-decimal}
use sentio.Common.Ip.{Ip, v4}
use sentio.Core.Error.{SentioError, redis}
use sentio.Core.Kv.{KvConn}
use sentio.Abuse.Types.{Floats, AbuseDeps, AbuseConfig}
use sentio.Abuse.Store.{IsStore}

pub record World : Type 0 where
  pub value : Text → Option Text
  pub clock : ℕ

abbrev pub put : Text → Text → World → World
put key text w = record {
  value = λ other. if same key other then some text else w.value other;
  clock = w.clock;
}

abbrev pub incremented : Text → Option Text → World → Result SentioError ℕ × World
incremented key none w = (ok 1, put key (decimal 1) w)
incremented key (some text) w = elim (parse_unsigned (2 ^ 63) text) [
  | some n ↦
      if ltb (suc n) (2 ^ 63)
      then (ok (suc n), put key (decimal (suc n)) w)
      else (err (redis (codes "overflow")), w)
  | none ↦ (err (redis (codes "not an integer")), w)
]

unfoldable pub count_up : Text → World → Result SentioError ℕ × World
count_up key w = incremented key (w.value key) w

abbrev pub store : KvConn ℕ World
store = record {
  get_opt = λ key w. (ok (w.value key), w);
  set_ex = λ key text secs w. (ok tt, put key text w);
  del = λ key w. (
    ok tt,
    record { value = λ other. if same key other then none else w.value other; clock = w.clock },
  );
  exists = λ key w. (ok (is_some (w.value key)), w);
  incr = count_up;
  expire = λ key secs w. (ok true, w);
  incr_by_float = λ key delta w. (ok delta, w);
  scan_keys = λ pattern w. (ok [], w);
  ttl = λ key w. (ok 0, w);
  ping = λ w. (ok tt, w);
}

-- Whole numbers stand for `f64`.
abbrev pub floats : Floats ℕ
floats = record {
  of_i64 = λ n. n;
  of_u32 = λ n. n;
  zero = 0;
  one = 1;
  half = 1;
  add = λ a b. a + b;
  sub = λ a b. a - b;
  mul = λ a b. a * b;
  div = λ a b. a;
  powf = λ a b. a;
  gt = λ a b. ltb b a;
  le = leb;
  eq = λ a b. a == b;
  parse = parse_unsigned (2 ^ 32);
  show = decimal;
}

abbrev pub deps : AbuseDeps ℕ World
deps = record {
  redis = store;
  floats = floats;
  now = λ w. w.clock;
  show_ip = λ ip. codes "192.0.2.1";
  sha256 = λ bytes. bytes;
  lookup_a = λ name w. (ok false, w);
  reverse_lookup = λ ip w. (ok true, w);
  parse_ip = λ text. none;
  parse_net = λ text. none;
}

incremented_next :
    (key : Text) (n : ℕ) (w : World)
    → suc n < 2 ^ 63
    → (incremented key (some (decimal n)) w).0 ≡ ok (suc n)
incremented_next key n w h =
    rw (parse_unsigned-decimal (2 ^ 63) n (omega (arith, h)), incremented)
      (rw (lt→ltb (suc n) (2 ^ 63) h) refl)

incremented_value :
    (key other : Text) (n : ℕ) (text : Option Text) (w : World)
    → (incremented key text w).0 ≡ ok n
    → (incremented key text w).1.value other
      ≡ (if same key other then some (decimal n) else w.value other)
incremented_value key other n none w e = ground (arith, e)
incremented_value key other n (some text) w e = ground (arith, e)

incremented_clock :
    (key : Text) (text : Option Text) (w : World) → (incremented key text w).1.clock ≡ w.clock
incremented_clock key none w = refl
incremented_clock key (some text) w = ground arith

pub deps-IsStore : IsStore deps (λ w. w.value)
unfolding count_up
deps-IsStore = record {
  exists_value = λ key w. refl;
  exists_keeps = λ key other w. refl;
  get_value = λ key w. refl;
  get_keeps = λ key other w. refl;
  set_value = λ key text other secs w. refl;
  incr_first = λ key w e. rw e refl;
  incr_next = λ key n w e h. rw e (incremented_next key n w h);
  incr_value = λ key other n w e. incremented_value key other n (w.value key) w e;
  expire_keeps = λ key other secs w. refl;
  set_now = λ key text secs w. refl;
  get_now = λ key w. refl;
  incr_now = λ key w. incremented_clock key (w.value key) w;
  expire_now = λ key secs w. refl;
}

-- A store whose operations fail.
abbrev pub broken : AbuseDeps ℕ World
broken = record deps {
  redis = record store {
    get_opt = λ key w. (err (redis (codes "down")), w);
    exists = λ key w. (err (redis (codes "down")), w);
    incr = λ key w. (err (redis (codes "down")), w);
  };
}

abbrev pub empty : ℕ → World
empty clock = record { value = λ key. none; clock = clock }

abbrev pub config : AbuseConfig ℕ
config = record {
  max_connections_per_minute = 50;
  max_auth_failures_per_hour = 3;
  ban_duration_secs = 3600;
  reputation_warn_threshold = 5;
  reputation_greylist_threshold = 7;
  reputation_reject_threshold = 10;
  reputation_decay_hours = 24;
  reverse_dns_required = false;
  dnsbl_lists = codes "zen.spamhaus.org" ∷ [];
  dnsbl_cache_secs = 3600;
  whitelist_ips = [];
  whitelist_cidrs = [];
  greylist = record { enabled = true; min_delay_secs = 300; max_age_hours = 48 };
}

abbrev pub client : Ip
client = v4 (192 ∷ 0 ∷ 2 ∷ 1 ∷ [])
