-- ===== src/Abuse/AutoBan.antt =====
-- From failed logins to the ban: auth_guard.rs, ban.rs and lib.rs of crates/sentio-abuse/src.
use sentio.Common.{
  ℕ, zero, suc, ◌%◌, ◌<◌, ◌^◌, true, false, Option, none, some, ◌≡◌, refl, sym, subst, ◌∙◌,
  Bool-cases, inl, inr, arith, leb, if◌then◌else◌, ok,
}
use sentio.Common.Text.{Text, codes, same, same_refl, decimal}
use sentio.Common.Ip.{Ip}
use sentio.Abuse.Types.{AbuseDeps}
use sentio.Abuse.Store.{IsStore}
use sentio.Abuse.Counters.{AuthGuard, ban_key, failure_key, expire_first, record_failure, is_banned}

module _ {F W : Type 0} (d : AbuseDeps F W) where
  -- So many failed logins of an address, one behind the other.
  unfoldable pub failures : AuthGuard → Ip → ℕ → W → W
  failures self ip zero w = w
  failures self ip (suc n) w = (record_failure d self ip (failures self ip n w)).1

  abbrev pub counted : ℕ → Option Text
  counted zero = none
  counted (suc n) = some (decimal (suc n))

  -- The keys of the two guards are different.
  fail_ban_keys : (ip : Ip) (w : W) → same (failure_key d ip w) (ban_key d ip) ≡ false
  unfolding failure_key ban_key same
  fail_ban_keys ip w = refl

  ban_fail_keys : (ip : Ip) (w : W) → same (ban_key d ip) (failure_key d ip w) ≡ false
  unfolding failure_key ban_key same
  ban_fail_keys ip w = refl

  failure_key_now :
      (ip : Ip) (w w' : W) → d.now w' ≡ d.now w → failure_key d ip w' ≡ failure_key d ip w
  unfolding failure_key
  failure_key_now ip w w' e = rw e refl

  module _ (value : W → Text → Option Text) (s : IsStore d value) (self : AuthGuard) (ip : Ip)
      (max : 0 < self.max_failures) where
    -- What is kept after so many failures.
    pub record Counted (w w' : W) (n : ℕ) : Type 0 where
      pub clock : d.now w' ≡ d.now w
      pub count : value w' (failure_key d ip w) ≡ counted n
      pub banned :
          value w' (ban_key d ip) ≡ (if leb self.max_failures n then some (codes "1") else none)
      pub others :
          (key : Text)
          → same (failure_key d ip w) key ≡ false
          → same (ban_key d ip) key ≡ false
          → value w' key ≡ value w key

    incr_counted :
        (key : Text) (n : ℕ) (w : W)
        → value w key ≡ counted n
        → suc n < 2 ^ 63
        → (d.redis.incr key w).0 ≡ ok (suc n)
    incr_counted key zero w e h = s.incr_first key w e
    incr_counted key (suc n) w e h = s.incr_next key (suc n) w e h

    expire_first_value :
        (count : ℕ) (key other : Text) (secs : ℕ) (w : W)
        → value (expire_first d count key secs w) other ≡ value w other
    unfolding expire_first
    expire_first_value count key other secs w = ground (arith, s.expire_keeps key other secs w)

    expire_first_now :
        (count : ℕ) (key : Text) (secs : ℕ) (w : W)
        → d.now (expire_first d count key secs w) ≡ d.now w
    unfolding expire_first
    expire_first_now count key secs w = ground (arith, s.expire_now key secs w)

    module _ (n : ℕ) (w w' : W) (h : suc n < 2 ^ 32) (c : Counted w w' n) where
      abbrev key : Text
      key = failure_key d ip w

      abbrev w2 : W
      w2 = expire_first d (suc n) key 7200 (d.redis.incr key w').1

      abbrev w3 : W
      w3 = (d.redis.set_ex (ban_key d ip) (codes "1") self.ban_duration_secs w2).1

      counts : (d.redis.incr key w').0 ≡ ok (suc n)
      counts = incr_counted key n w' c.count (omega (arith, h))

      record_failure_worlds :
          (record_failure d self ip w').1 ≡ (if leb self.max_failures (suc n) then w3 else w2)
      unfolding record_failure
      record_failure_worlds =
          let small : suc n % 2 ^ 32 ≡ suc n = omega (arith, h) in
          rw (failure_key_now ip w w' c.clock) (
            rw counts (
              rw small (elim (Bool-cases (leb self.max_failures (suc n))) [
                | inl full ↦ rw full refl
                | inr room ↦ rw room refl
              ])))

      now2 : d.now w2 ≡ d.now w
      now2 = expire_first_now (suc n) key 7200 _ ∙ (s.incr_now key w' ∙ c.clock)

      value2 :
          (other : Text)
          → value w2 other ≡ (if same key other then some (decimal (suc n)) else value w' other)
      value2 other =
          expire_first_value (suc n) key other 7200 _ ∙ s.incr_value key other (suc n) w' counts

      value3 :
          (other : Text)
          → value w3 other
            ≡ (if same (ban_key d ip) other then some (codes "1") else value w2 other)
      value3 other = s.set_value (ban_key d ip) (codes "1") other self.ban_duration_secs w2

      full_step : leb self.max_failures (suc n) ≡ true → Counted w w3 (suc n)
      full_step full = record {
        clock = s.set_now (ban_key d ip) (codes "1") self.ban_duration_secs w2 ∙ now2;
        count = value3 key ∙ rw (ban_fail_keys ip w) (value2 key ∙ rw (same_refl key) refl);
        banned = value3 (ban_key d ip) ∙ rw (same_refl (ban_key d ip)) (rw full refl);
        others = λ other a b. value3 other ∙ rw b (value2 other ∙ rw a (c.others other a b));
      }

      room_step : leb self.max_failures (suc n) ≡ false → Counted w w2 (suc n)
      room_step room = record {
        clock = now2;
        count = value2 key ∙ rw (same_refl key) refl;
        banned =
            value2 (ban_key d ip) ∙ rw (fail_ban_keys ip w) (c.banned ∙ rw room (rw before refl));
        others = λ other a b. value2 other ∙ rw a (c.others other a b);
      }
        where
          before : leb self.max_failures n ≡ false
          before = ground (arith, room)

      step_lem : Counted w (record_failure d self ip w').1 (suc n)
      step_lem = elim (Bool-cases (leb self.max_failures (suc n))) [
        | inl full ↦
            subst (λ v. Counted w v (suc n)) (sym (record_failure_worlds ∙ rw full refl))
              (full_step full)
        | inr room ↦
            subst (λ v. Counted w v (suc n)) (sym (record_failure_worlds ∙ rw room refl))
              (room_step room)
      ]

    pub failures-Counted :
        (n : ℕ) (w : W)
        → n < 2 ^ 32
        → value w (failure_key d ip w) ≡ none
        → value w (ban_key d ip) ≡ none
        → Counted w (failures self ip n w) n
    unfolding failures
    failures-Counted zero w h fresh free = record {
      clock = refl;
      count = fresh;
      banned = ground (arith, max, free);
      others = λ other a b. refl;
    }
    failures-Counted (suc n) w h fresh free =
        step_lem n w (failures self ip n w) h (failures-Counted n w (omega (arith, h)) fresh free)

    -- An address with no failures in this hour that is not banned is banned after so many failures
    -- just when they are as many as are allowed.
    pub is_banned-failures :
        (n : ℕ) (w : W)
        → n < 2 ^ 32
        → value w (failure_key d ip w) ≡ none
        → value w (ban_key d ip) ≡ none
        → (is_banned d ip (failures self ip n w)).0 ≡ leb self.max_failures n
    unfolding is_banned
    is_banned-failures n w h fresh free =
        let c = failures-Counted n w h fresh free in
        rw (s.exists_value (ban_key d ip) (failures self ip n w)) (rw c.banned (ground arith))
