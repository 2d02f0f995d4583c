-- ===== src/Abuse/Down.antt =====
-- The guards of crates/sentio-abuse/src while the store cannot be reached.
use sentio.Common.{true, false, ◌||◌, ◌≡◌, refl, arith, err}
use sentio.Common.Text.{Text}
use sentio.Common.Ip.{Ip}
use sentio.Core.Error.{SentioError}
use sentio.Abuse.Types.{AbuseDeps}
use sentio.Abuse.Counters.{defer, is_banned, check_rate, with_current, greylist_check, grey_seen}
use sentio.Abuse.Lists.{contains_ip, in_cidrs, is_whitelisted}
use sentio.Abuse.Guard.{
  AbuseGuard, check_connection, check_ban, check_rdns, check_rates, after_rate,
}

-- Every operation that the guards wait for fails with one error.
pub record IsDown {F W : Type 0} (d : AbuseDeps F W) (e : SentioError) : Type 0 where
  pub no_get : (key : Text) (w : W) → (d.redis.get_opt key w).0 ≡ err e
  pub no_exists : (key : Text) (w : W) → (d.redis.exists key w).0 ≡ err e
  pub no_incr : (key : Text) (w : W) → (d.redis.incr key w).0 ≡ err e

module _ {F W : Type 0} (d : AbuseDeps F W) (e : SentioError) (down : IsDown d e) where
  check_rate_down :
      (self : AbuseGuard F) (ip : Ip) (w : W) → (check_rate d self.rate ip w).0 ≡ err e
  unfolding check_rate with_current
  check_rate_down self ip w = rw (down.no_incr _ w) refl

  check_rates_down : (self : AbuseGuard F) (ip : Ip) (w : W) → (check_rates d self ip w).0 ≡ err e
  unfolding check_rates after_rate
  check_rates_down self ip w = rw (check_rate_down self ip w) refl

  check_rdns_down :
      (self : AbuseGuard F) (ip : Ip) (w : W)
      → self.reverse_dns_required ≡ false
      → (check_rdns d self ip w).0 ≡ err e
  unfolding check_rdns
  check_rdns_down self ip w h = ground (arith, check_rates_down self ip w)

  -- While the store fails, no address counts as banned and greylisting defers every message; a
  -- connection from an address that is not on the whitelist of the configuration is refused, with
  -- the error of the store, if no reverse DNS is asked for.
  pub guards_down :
      (self : AbuseGuard F) (ip : Ip) (from to : Text) (w : W)
      → self.greylister.enabled ≡ true
      → self.reverse_dns_required ≡ false
      → contains_ip d self.whitelist.static_ips ip || in_cidrs d self.whitelist.static_cidrs ip
        ≡ false
      → ((is_banned d ip w).0 ≡ false)
        × ((greylist_check d self.greylister ip from to w).0 ≡ defer)
        × ((check_connection d self ip w).0 ≡ err e)
  unfolding is_banned greylist_check grey_seen check_connection is_whitelisted check_ban
  guards_down self ip from to w on no_rdns static = (
    rw (down.no_exists _ w) refl,
    rw on (rw (down.no_get _ w) refl),
    rw static
        (rw (down.no_exists _ w) (rw (down.no_exists _ _) (check_rdns_down self ip _ no_rdns))),
  )
