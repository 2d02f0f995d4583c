-- ===== src/Abuse/Guard.antt =====
-- The facade of the guards, and the order of its checks: `AbuseGuard` of
-- crates/sentio-abuse/src/lib.rs.
use sentio.Common.{Bool, true, false, ◌++◌, if◌then◌else◌, Result, ok, err}
use sentio.Common.Text.{Text, codes}
use sentio.Common.Ip.{Ip}
use sentio.Core.Error.{SentioError, rate_limit}
use sentio.Abuse.Types.{AbuseDeps, AbuseConfig}
use sentio.Abuse.Counters.{
  BanChecker, AuthGuard, Greylister, RateGuard, new_ban_checker, new_auth_guard, new_greylister,
  new_rate_guard, is_banned, check_rate,
}
use sentio.Abuse.Lists.{
  Whitelist, DnsblChecker, new_whitelist, new_dnsbl_checker, is_whitelisted, dnsbl_check,
}
use sentio.Abuse.Reputation.{
  ReputationTracker, ReputationAction, allow, warn, greylist, reject, new_tracker, evaluate,
}

pub record AbuseGuard (F : Type 0) : Type 0 where
  pub bans : BanChecker
  pub rate : RateGuard
  pub auth : AuthGuard
  pub reputation : ReputationTracker F
  pub dnsbl : DnsblChecker
  pub greylister : Greylister
  pub whitelist : Whitelist
  pub reverse_dns_required : Bool

module _ {F W : Type 0} (d : AbuseDeps F W) where
  abbrev pub new_guard : AbuseConfig F → AbuseGuard F
  new_guard config = record {
    bans = new_ban_checker config;
    rate = new_rate_guard config;
    auth = new_auth_guard config;
    reputation = new_tracker d config;
    dnsbl = new_dnsbl_checker config;
    greylister = new_greylister config.greylist;
    whitelist = new_whitelist d config;
    reverse_dns_required = config.reverse_dns_required;
  }

  abbrev pub Verdict : Type 0
  Verdict = Result SentioError (Unit {0})

  unfoldable pub refused : (reason : Text) → Ip → Verdict
  refused reason ip = err (rate_limit (reason ++ d.show_ip ip))

  unfoldable pub after_reputation : Ip → ReputationAction → Verdict
  after_reputation ip allow = ok tt
  after_reputation ip warn = ok tt
  after_reputation ip greylist = refused (codes "reputation:greylist:") ip
  after_reputation ip reject = refused (codes "reputation:reject:") ip

  unfoldable pub check_reputation : AbuseGuard F → Ip → W → Verdict × W
  check_reputation self ip w =
      let (action, w') = evaluate d self.reputation ip w in (after_reputation ip action, w')

  unfoldable pub check_dnsbl : AbuseGuard F → Ip → W → Verdict × W
  check_dnsbl self ip w =
      let (result, w') = dnsbl_check d self.dnsbl ip w in
      if result.listed then (refused (codes "dnsbl:") ip, w') else check_reputation self ip w'

  unfoldable pub after_rate : AbuseGuard F → Ip → Verdict → W → Verdict × W
  after_rate self ip (err e) w = (err e, w)
  after_rate self ip (ok u) w = check_dnsbl self ip w

  unfoldable pub check_rates : AbuseGuard F → Ip → W → Verdict × W
  check_rates self ip w = let (r, w') = check_rate d self.rate ip w in after_rate self ip r w'

  -- An error of the lookup lets the address pass.
  unfoldable pub after_rdns : AbuseGuard F → Ip → Result Text Bool → W → Verdict × W
  after_rdns self ip (ok true) w = check_rates self ip w
  after_rdns self ip (ok false) w = (refused (codes "rdns:") ip, w)
  after_rdns self ip (err e) w = check_rates self ip w

  unfoldable pub check_rdns : AbuseGuard F → Ip → W → Verdict × W
  check_rdns self ip w =
      if self.reverse_dns_required
      then (let (r, w') = d.reverse_lookup ip w in after_rdns self ip r w')
      else check_rates self ip w

  unfoldable pub check_ban : AbuseGuard F → Ip → W → Verdict × W
  check_ban self ip w =
      let (banned, w') = is_banned d ip w in
      if banned then (refused (codes "banned:") ip, w') else check_rdns self ip w'

  unfoldable pub check_connection : AbuseGuard F → Ip → W → Verdict × W
  check_connection self ip w =
      let (whitelisted, w') = is_whitelisted d self.whitelist ip w in
      if whitelisted then (ok tt, w') else check_ban self ip w'
