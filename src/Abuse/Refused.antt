-- ===== src/Abuse/Refused.antt =====
-- The connections that lib.rs of crates/sentio-abuse/src refuses or lets pass before its other
-- checks: those of banned and of whitelisted addresses.
use sentio.Common.{
  ℕ, ◌<◌, ◌≤◌, ◌^◌, true, false, ◌||◌, Option, none, ◌≡◌, ◌∙◌, refl, arith, is_some,
}
use sentio.Common.Text.{Text, codes, same}
use sentio.Common.Ip.{Ip}
use sentio.Abuse.Types.{AbuseDeps}
use sentio.Abuse.Store.{IsStore}
use sentio.Abuse.Counters.{ban_key, failure_key, is_banned}
use sentio.Abuse.Lists.{contains_ip, in_cidrs, whitelist_key, is_whitelisted}
use sentio.Abuse.Guard.{AbuseGuard, refused, check_ban, check_connection}
use sentio.Abuse.AutoBan.{failures, failures-Counted}

module _ {F W : Type 0} (d : AbuseDeps F W) (value : W → Text → Option Text) (s : IsStore d value)
    (self : AbuseGuard F) (ip : Ip) where
  check_connection_banned :
      (w : W)
      → contains_ip d self.whitelist.static_ips ip || in_cidrs d self.whitelist.static_cidrs ip
        ≡ false
      → value w (whitelist_key d ip) ≡ none
      → is_some (value w (ban_key d ip)) ≡ true
      → (check_connection d self ip w).0 ≡ refused d (codes "banned:") ip
  unfolding check_connection is_whitelisted check_ban is_banned
  check_connection_banned w static dynamic banned = rw static (
      rw (s.exists_value (whitelist_key d ip) w) (
        rw dynamic (
          rw (s.exists_value (ban_key d ip) (d.redis.exists (whitelist_key d ip) w).1)
            (rw (s.exists_keeps (whitelist_key d ip) (ban_key d ip) w) (rw banned refl)))))

  other_keys :
      (w : W)
      → (same (failure_key d ip w) (whitelist_key d ip) ≡ false)
        × (same (ban_key d ip) (whitelist_key d ip) ≡ false)
  unfolding failure_key ban_key whitelist_key same
  other_keys w = (refl, refl)

  -- An address that is on no whitelist and had no failures in this hour is refused as banned at its
  -- next connection, once it has had as many failed logins as are allowed.
  pub check_connection-failures :
      (n : ℕ) (w : W)
      → 0 < self.auth.max_failures
      → self.auth.max_failures ≤ n
      → n < 2 ^ 32
      → contains_ip d self.whitelist.static_ips ip || in_cidrs d self.whitelist.static_cidrs ip
        ≡ false
      → value w (whitelist_key d ip) ≡ none
      → value w (failure_key d ip w) ≡ none
      → value w (ban_key d ip) ≡ none
      → (check_connection d self ip (failures d self.auth ip n w)).0
        ≡ refused d (codes "banned:") ip
  check_connection-failures n w max many h static dynamic fresh free =
      let c = failures-Counted d value s self.auth ip max n w h fresh free in
      let (a, b) = other_keys w in
      check_connection_banned (failures d self.auth ip n w) static
        (c.others (whitelist_key d ip) a b ∙ dynamic) (ground (arith, c.banned))
