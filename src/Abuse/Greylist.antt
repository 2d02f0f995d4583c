-- ===== src/Abuse/Greylist.antt =====
-- Greylisting over time: greylist.rs of crates/sentio-abuse/src.
use sentio.Common.{
  ℕ, ◌+◌, ◌*◌, ◌<◌, ◌≤◌, ◌^◌, true, Option, none, some, ◌≡◌, ◌∙◌, refl, arith, leb, if◌then◌else◌,
}
use sentio.Common.Text.{Text, same_refl}
use sentio.Common.Text.Signed.{show_i64}
use sentio.Common.Text.Numbers.{parse_i64-show_i64, ge_i64-sub_i64}
use sentio.Common.Ip.{Ip}
use sentio.Abuse.Types.{AbuseDeps}
use sentio.Abuse.Store.{IsStore}
use sentio.Abuse.Counters.{Greylister, accept, defer, grey_key, grey_age, grey_seen, greylist_check}

module _ {F W : Type 0} (d : AbuseDeps F W) (value : W → Text → Option Text)
    (s : IsStore d value) where
  seen_lem :
      (self : Greylister) (ip : Ip) (from to : Text) (first : ℕ) (w : W)
      → self.enabled ≡ true
      → value w (grey_key d ip from to) ≡ some (show_i64 first)
      → first ≤ d.now w
      → d.now w < 2 ^ 63
      → self.min_delay_secs < 2 ^ 63
      → (greylist_check d self ip from to w).0
        ≡ (if leb (first + self.min_delay_secs) (d.now w) then accept else defer)
  unfolding greylist_check grey_seen grey_age
  seen_lem self ip from to first w on seen before clock delay = rw on (
      rw (s.get_value (grey_key d ip from to) w) (
        rw seen (
          rw (s.get_now (grey_key d ip from to) w) (
            rw (parse_i64-show_i64 first (omega arith))
              (rw (ge_i64-sub_i64 (d.now w) first self.min_delay_secs before clock delay) refl)))))

  new_lem :
      (self : Greylister) (ip : Ip) (from to : Text) (w : W)
      → self.enabled ≡ true
      → value w (grey_key d ip from to) ≡ none
      → ((greylist_check d self ip from to w).0 ≡ defer)
        × (value (greylist_check d self ip from to w).1 (grey_key d ip from to)
            ≡ some (show_i64 (d.now w)))
  unfolding greylist_check grey_seen
  new_lem self ip from to w on new =
      rw on (rw (s.get_value (grey_key d ip from to) w) (rw new (refl, stored)))
    where
      stored :
          value
            (d.redis.set_ex
              (grey_key d ip from to)
              (show_i64 (d.now (d.redis.get_opt (grey_key d ip from to) w).1))
              (self.max_age_hours * 3600)
              (d.redis.get_opt (grey_key d ip from to) w).1).1
            (grey_key d ip from to)
          ≡ some (show_i64 (d.now w))
      stored =
          s.set_value (grey_key d ip from to) _ (grey_key d ip from to) (self.max_age_hours * 3600)
            _
          ∙ rw (same_refl (grey_key d ip from to)) (rw (s.get_now (grey_key d ip from to) w) refl)

  -- The first time a triplet is seen it is deferred, and the time is kept; from then on it is
  -- accepted just when the delay has passed.
  pub greylist_check_retry :
      (self : Greylister) (ip : Ip) (from to : Text) (w later : W)
      → self.enabled ≡ true
      → value w (grey_key d ip from to) ≡ none
      → value later (grey_key d ip from to)
        ≡ value (greylist_check d self ip from to w).1 (grey_key d ip from to)
      → d.now w ≤ d.now later
      → d.now later < 2 ^ 63
      → self.min_delay_secs < 2 ^ 63
      → ((greylist_check d self ip from to w).0 ≡ defer)
        × ((greylist_check d self ip from to later).0
            ≡ (if leb (d.now w + self.min_delay_secs) (d.now later) then accept else defer))
  greylist_check_retry self ip from to w later on new kept before clock delay =
      let (deferred, stored) = new_lem self ip from to w on new in
      (deferred, seen_lem self ip from to (d.now w) later on (kept ∙ stored) before clock delay)
