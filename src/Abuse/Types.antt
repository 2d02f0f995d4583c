-- ===== src/Abuse/Types.antt =====
-- What the guards of crates/sentio-abuse/src are given, and the configuration that they read
-- (`AbuseConfig` and `GreylistConfig` of crates/sentio-core/src/config.rs).
use sentio.Common.{ℕ, Bool, List, Option, Result}
use sentio.Common.Text.{Text}
use sentio.Common.Ip.{Ip}
use sentio.Core.Kv.{KvConn}

-- `f64`: its operations, the conversions of integers, and its text.
pub record Floats (F : Type 0) : Type 0 where
  pub of_i64 : ℕ → F
  pub of_u32 : ℕ → F
  pub zero : F
  pub one : F
  pub half : F
  pub add : F → F → F
  pub sub : F → F → F
  pub mul : F → F → F
  pub div : F → F → F
  pub powf : F → F → F
  pub gt : F → F → Bool
  pub le : F → F → Bool
  pub eq : F → F → Bool
  pub parse : Text → Option F
  pub show : F → Text

-- The store, the clock in seconds since 1970, which is not negative, and what is of other crates:
-- the text of an address, SHA-256, DNS (`DnsLookup`), and the parsers of addresses and networks.
pub record AbuseDeps (F W : Type 0) : Type 0 where
  pub redis : KvConn F W
  pub floats : Floats F
  pub now : W → ℕ
  pub show_ip : Ip → Text
  pub sha256 : List ℕ → List ℕ
  pub lookup_a : Text → W → Result Text Bool × W
  pub reverse_lookup : Ip → W → Result Text Bool × W
  pub parse_ip : Text → Option Ip
  pub parse_net : Text → Option (Ip → Bool)

pub record GreylistConfig : Type 0 where
  pub enabled : Bool
  pub min_delay_secs : ℕ
  pub max_age_hours : ℕ

pub record AbuseConfig (F : Type 0) : Type 0 where
  pub max_connections_per_minute : ℕ
  pub max_auth_failures_per_hour : ℕ
  pub ban_duration_secs : ℕ
  pub reputation_warn_threshold : F
  pub reputation_greylist_threshold : F
  pub reputation_reject_threshold : F
  pub reputation_decay_hours : ℕ
  pub reverse_dns_required : Bool
  pub dnsbl_lists : List Text
  pub dnsbl_cache_secs : ℕ
  pub whitelist_ips : List Text
  pub whitelist_cidrs : List Text
  pub greylist : GreylistConfig
