-- ===== src/Abuse/Counters.antt =====
-- The guards that keep counters and times in the store: ban.rs, auth_guard.rs, greylist.rs and
-- rate_guard.rs of crates/sentio-abuse/src.
use sentio.Common.{
  ℕ, ◌+◌, ◌-◌, ◌*◌, ◌/◌, ◌%◌, ◌^◌, Bool, true, false, not, List, [], ◌∷◌, ◌++◌, Option, none, some,
  ltb, leb, ◌==◌, if◌then◌else◌, Result, ok, err, ◌>>=◌,
}
use sentio.Common.Text.{Text, codes, decimal, parse_unsigned}
use sentio.Common.Text.Signed.{sub_i64, ge_i64, parse_i64, show_i64}
use sentio.Common.Utf8.Encode.{to_utf8}
use sentio.Common.Ip.{Ip}
use sentio.Core.Error.{SentioError, rate_limit}
use sentio.Abuse.Types.{AbuseDeps, GreylistConfig, AbuseConfig}

pub record BanChecker : Type 0 where
  pub default_duration_secs : ℕ

pub record AuthGuard : Type 0 where
  pub max_failures : ℕ
  pub ban_duration_secs : ℕ

pub record Greylister : Type 0 where
  pub enabled : Bool
  pub min_delay_secs : ℕ
  pub max_age_hours : ℕ

pub record RateGuard : Type 0 where
  pub max_per_minute : ℕ

pub data GreylistAction : Type 0 where
  accept defer disabled : GreylistAction

abbrev pub new_ban_checker : {F : Type 0} → AbuseConfig F → BanChecker
new_ban_checker config = record { default_duration_secs = config.ban_duration_secs }

abbrev pub new_auth_guard : {F : Type 0} → AbuseConfig F → AuthGuard
new_auth_guard config = record {
  max_failures = config.max_auth_failures_per_hour;
  ban_duration_secs = config.ban_duration_secs;
}

abbrev pub new_greylister : GreylistConfig → Greylister
new_greylister config = record {
  enabled = config.enabled;
  min_delay_secs = config.min_delay_secs;
  max_age_hours = config.max_age_hours;
}

abbrev pub new_rate_guard : {F : Type 0} → AbuseConfig F → RateGuard
new_rate_guard config = record { max_per_minute = config.max_connections_per_minute }

-- `.ok().flatten()`, `unwrap_or` on a result and on an option.
abbrev pub found : Result SentioError (Option Text) → Option Text
found (ok v) = v
found (err e) = none

abbrev pub ok_or_else : {A : Type 0} → Result SentioError A → A → A
ok_or_else (ok a) other = a
ok_or_else (err e) other = other

abbrev pub some_or : {A : Type 0} → Option A → A → A
some_or (some a) other = a
some_or none other = other

abbrev pub and_parse : {A : Type 0} → Option Text → (Text → Option A) → Option A
and_parse none f = none
and_parse (some text) f = f text

-- `{:02x}` of a byte.
abbrev hex_digit : ℕ → ℕ
hex_digit n = if ltb n 10 then b'0' + n else b'a' + (n - 10)

unfoldable pub hex_bytes : List ℕ → Text
hex_bytes [] = []
hex_bytes (b ∷ bytes) = hex_digit (b / 16 % 16) ∷ hex_digit (b % 16) ∷ hex_bytes bytes

module _ {F W : Type 0} (d : AbuseDeps F W) where
  -- ban.rs
  unfoldable pub ban_key : Ip → Text
  ban_key ip = codes "sentio:smtp:ban:" ++ d.show_ip ip

  unfoldable pub is_banned : Ip → W → Bool × W
  is_banned ip w = let (r, w') = d.redis.exists (ban_key ip) w in (ok_or_else r false, w')

  unfoldable pub ban : Ip → (duration_secs : ℕ) → W → W
  ban ip duration_secs w = (d.redis.set_ex (ban_key ip) (codes "1") duration_secs w).1

  unfoldable pub ban_default : BanChecker → Ip → W → W
  ban_default self ip w = ban ip self.default_duration_secs w

  unfoldable pub unban : Ip → W → W
  unban ip w = (d.redis.del (ban_key ip) w).1

  -- auth_guard.rs
  unfoldable pub failure_key : Ip → W → Text
  failure_key ip w =
      codes "sentio:smtp:auth:fail:" ++ (d.show_ip ip ++ (b':' ∷ decimal (d.now w / 3600)))

  -- The key lives from its first increment on.
  unfoldable pub expire_first : (count : ℕ) → (key : Text) → (secs : ℕ) → W → W
  expire_first count key secs w = if count == 1 then (d.redis.expire key secs w).1 else w

  unfoldable pub record_failure : AuthGuard → Ip → W → Bool × W
  record_failure self ip w =
      let key = failure_key ip w in
      let (r, w1) = d.redis.incr key w in
      let count = ok_or_else r 1 in
      let w2 = expire_first count key 7200 w1 in
      if leb self.max_failures (count % 2 ^ 32)
      then (true, (d.redis.set_ex (ban_key ip) (codes "1") self.ban_duration_secs w2).1)
      else (false, w2)

  unfoldable pub reset : Ip → W → W
  reset ip w = (d.redis.del (failure_key ip w) w).1

  unfoldable pub failure_count : Ip → W → ℕ × W
  failure_count ip w =
      let (r, w') = d.redis.get_opt (failure_key ip w) w in
      (some_or (and_parse (found r) (parse_unsigned (2 ^ 32))) 0, w')

  -- greylist.rs
  unfoldable pub sha256_hex : Text → Text
  sha256_hex input = hex_bytes (d.sha256 (to_utf8 input))

  unfoldable pub grey_key : Ip → (from to : Text) → Text
  grey_key ip from to =
      codes "sentio:smtp:grey:" ++ sha256_hex (d.show_ip ip ++ (b'|' ∷ (from ++ (b'|' ∷ to))))

  -- The age of a triplet that has been seen, against the delay.
  unfoldable pub grey_age : Greylister → (first_seen_str : Text) → (now : ℕ) → GreylistAction
  grey_age self first_seen_str now =
      if ge_i64 (sub_i64 now (some_or (parse_i64 first_seen_str) 0)) self.min_delay_secs
      then accept
      else defer

  unfoldable pub grey_seen : Greylister → (key : Text) → Option Text → W → GreylistAction × W
  grey_seen self key (some first_seen_str) w = (grey_age self first_seen_str (d.now w), w)
  grey_seen self key none w =
      (defer, (d.redis.set_ex key (show_i64 (d.now w)) (self.max_age_hours * 3600) w).1)

  unfoldable pub greylist_check : Greylister → Ip → (from to : Text) → W → GreylistAction × W
  greylist_check self ip from to w =
      if not self.enabled
      then (disabled, w)
      else (let (r, w') = d.redis.get_opt (grey_key ip from to) w in
          grey_seen self (grey_key ip from to) (found r) w')

  -- rate_guard.rs
  unfoldable pub rate_key : Ip → (minute : Text) → Text
  rate_key ip minute = codes "sentio:smtp:rate:conn:" ++ (d.show_ip ip ++ (b':' ∷ minute))

  abbrev pub minute_before : ℕ → Text
  minute_before minute = if minute == 0 then codes "-1" else decimal (minute - 1)

  -- The estimate of a sliding window, from the count of the last minute and that of this one.
  unfoldable pub weighted : (prev_count current_count elapsed_secs : ℕ) → F
  weighted prev_count current_count elapsed_secs =
      let f = d.floats in
      f.add
        (f.mul (f.of_i64 prev_count) (f.sub f.one (f.div (f.of_i64 elapsed_secs) (f.of_u32 60))))
        (f.of_i64 current_count)

  unfoldable pub after_counts :
      RateGuard
      → Ip
      → (elapsed_secs current_count : ℕ) → Option Text
      → Result SentioError (Unit {0})
  after_counts self ip elapsed_secs current_count prev =
      let prev_count = some_or (and_parse prev parse_i64) 0 in
      if d.floats.gt (weighted prev_count current_count elapsed_secs)
        (d.floats.of_u32 self.max_per_minute)
      then err (rate_limit (codes "conn:" ++ d.show_ip ip))
      else ok tt

  unfoldable pub with_previous :
      RateGuard → Ip → (total_secs current_count : ℕ) → W → Result SentioError (Unit {0}) × W
  with_previous self ip total_secs current_count w =
      let (r, w') = d.redis.get_opt (rate_key ip (minute_before (total_secs / 60))) w in
      (r >>= after_counts self ip (total_secs % 60) current_count, w')

  unfoldable pub with_current :
      RateGuard
      → Ip
      → (total_secs : ℕ) → Result SentioError ℕ
      → W
      → Result SentioError (Unit {0}) × W
  with_current self ip total_secs (err e) w = (err e, w)
  with_current self ip total_secs (ok current_count) w =
      with_previous self ip total_secs current_count
        (expire_first current_count (rate_key ip (decimal (total_secs / 60))) 120 w)

  unfoldable pub check_rate : RateGuard → Ip → W → Result SentioError (Unit {0}) × W
  check_rate self ip w =
      let total_secs = d.now w in
      let (r, w') = d.redis.incr (rate_key ip (decimal (total_secs / 60))) w in
      with_current self ip total_secs r w'
