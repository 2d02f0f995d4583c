-- ===== src/Abuse/Reputation.antt =====
-- The reputation of an address: crates/sentio-abuse/src/ip_reputation.rs.
use sentio.Common.{ℕ, ◌*◌, Bool, ◌++◌, ◌==◌, if◌then◌else◌}
use sentio.Common.Text.{Text, codes}
use sentio.Common.Text.Signed.{sub_i64, parse_i64, show_i64}
use sentio.Common.Ip.{Ip}
use sentio.Abuse.Types.{AbuseDeps, AbuseConfig}
use sentio.Abuse.Counters.{found, some_or, and_parse}

pub data ReputationAction : Type 0 where
  allow warn greylist reject : ReputationAction

pub record ReputationTracker (F : Type 0) : Type 0 where
  pub warn_threshold : F
  pub greylist_threshold : F
  pub reject_threshold : F
  pub decay_hours : F

abbrev pub rep_ttl_secs : ℕ
rep_ttl_secs = 86400 * 7

module _ {F W : Type 0} (d : AbuseDeps F W) where
  unfoldable pub new_tracker : AbuseConfig F → ReputationTracker F
  new_tracker config = record {
    warn_threshold = config.reputation_warn_threshold;
    greylist_threshold = config.reputation_greylist_threshold;
    reject_threshold = config.reputation_reject_threshold;
    decay_hours = d.floats.of_u32 config.reputation_decay_hours;
  }

  unfoldable pub score_key : Ip → Text
  score_key ip = codes "sentio:smtp:rep:" ++ d.show_ip ip

  unfoldable pub ts_key : Ip → Text
  ts_key ip = codes "sentio:smtp:rep:ts:" ++ d.show_ip ip

  -- The exponential decay, if time has passed since the last update.
  unfoldable pub decayed : ReputationTracker F → (stored_score : F) → (last_update now : ℕ) → F
  decayed self stored_score last_update now =
      let f = d.floats in
      let hours_elapsed = f.div (f.of_i64 (sub_i64 now last_update)) (f.of_u32 3600) in
      if last_update == 0
      then stored_score
      else if f.le hours_elapsed f.zero
      then stored_score
      else f.mul stored_score (f.powf f.half (f.div hours_elapsed self.decay_hours))

  unfoldable pub with_timestamp : ReputationTracker F → Ip → (stored_score : F) → W → F × W
  with_timestamp self ip stored_score w =
      let (r, w') = d.redis.get_opt (ts_key ip) w in
      (decayed self stored_score (some_or (and_parse (found r) parse_i64) 0) (d.now w'), w')

  unfoldable pub get_score : ReputationTracker F → Ip → W → F × W
  get_score self ip w =
      let (r, w') = d.redis.get_opt (score_key ip) w in
      let stored_score = some_or (and_parse (found r) d.floats.parse) d.floats.zero in
      if d.floats.eq stored_score d.floats.zero
      then (d.floats.zero, w')
      else with_timestamp self ip stored_score w'

  unfoldable pub store_score : Ip → (new_score : F) → W → F × W
  store_score ip new_score w =
      let now = d.now w in
      let w1 = (d.redis.set_ex (score_key ip) (d.floats.show new_score) rep_ttl_secs w).1 in
      (new_score, (d.redis.set_ex (ts_key ip) (show_i64 now) rep_ttl_secs w1).1)

  unfoldable pub record_infraction : ReputationTracker F → Ip → (points : F) → W → F × W
  record_infraction self ip points w =
      let (current, w') = get_score self ip w in store_score ip (d.floats.add current points) w'

  unfoldable pub reset_score : Ip → W → W
  reset_score ip w = (d.redis.del (ts_key ip) (d.redis.del (score_key ip) w).1).1

  unfoldable pub action_of : ReputationTracker F → (score : F) → ReputationAction
  action_of self score =
      if d.floats.gt score self.reject_threshold
      then reject
      else if d.floats.gt score self.greylist_threshold
      then greylist
      else if d.floats.gt score self.warn_threshold
      then warn
      else allow

  unfoldable pub evaluate : ReputationTracker F → Ip → W → ReputationAction × W
  evaluate self ip w = let (score, w') = get_score self ip w in (action_of self score, w')

  unfoldable pub is_suspicious : ReputationTracker F → Ip → W → Bool × W
  is_suspicious self ip w =
      let (score, w') = get_score self ip w in (d.floats.gt score self.reject_threshold, w')
