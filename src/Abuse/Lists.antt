-- ===== src/Abuse/Lists.antt =====
-- The guards that look an address up in lists: whitelist.rs and dnsbl_cache.rs of
-- crates/sentio-abuse/src.
use Prim.Native.Nat.{bit_and}
use sentio.Common.{
  ℕ, ◌+◌, ◌-◌, ◌*◌, ◌/◌, Bool, true, false, not, ◌||◌, List, [], ◌∷◌, ◌++◌, Option, none, some, ltb,
  if◌then◌else◌, Result, ok, err,
}
use sentio.Common.Text.{Text, codes, same, decimal}
use sentio.Common.Ip.{Ip, v4, v6, same_ip}
use sentio.Core.Error.{SentioError}
use sentio.Abuse.Types.{AbuseDeps, AbuseConfig}
use sentio.Abuse.Counters.{ok_or_else}

pub record Whitelist : Type 0 where
  pub static_ips : List Ip
  pub static_cidrs : List (Ip → Bool)

pub record DnsblChecker : Type 0 where
  pub lists : List Text
  pub cache_secs : ℕ

pub record DnsblResult : Type 0 where
  pub listed : Bool
  pub listings : List Text

abbrev pub new_dnsbl_checker : {F : Type 0} → AbuseConfig F → DnsblChecker
new_dnsbl_checker config = record {
  lists = config.dnsbl_lists;
  cache_secs = config.dnsbl_cache_secs;
}

-- `filter_map(|s| s.parse().ok())`.
unfoldable pub parse_all : {A : Type 0} → (Text → Option A) → List Text → List A
parse_all parse [] = []
parse_all parse (s ∷ texts) = elim (parse s) [
  | some a ↦ a ∷ parse_all parse texts
  | none ↦ parse_all parse texts
]

-- The nibbles of the bytes, which come in reverse order: the low one first.
unfoldable pub nibbles : List ℕ → List ℕ
nibbles [] = []
nibbles (byte ∷ bytes) = bit_and byte 0x0f ∷ bit_and (byte / 16) 0x0f ∷ nibbles bytes

-- `{:x}` of a nibble.
abbrev pub hex_nibble : ℕ → ℕ
hex_nibble n = if ltb n 10 then b'0' + n else b'a' + (n - 10)

-- `join(".")`.
unfoldable pub join_dots : List Text → Text
join_dots [] = []
join_dots (part ∷ []) = part
join_dots (part ∷ next ∷ parts) = part ++ (b'.' ∷ join_dots (next ∷ parts))

unfoldable pub texts_of : (ℕ → Text) → List ℕ → List Text
texts_of f [] = []
texts_of f (n ∷ ns) = f n ∷ texts_of f ns

unfoldable pub onto : List ℕ → List ℕ → List ℕ
onto [] acc = acc
onto (b ∷ bytes) acc = onto bytes (b ∷ acc)

unfoldable pub reverse_ip : Ip → Option Text
reverse_ip (v4 octets) = some (join_dots (texts_of decimal (onto octets [])))
reverse_ip (v6 octets) =
    some (join_dots (texts_of (λ n. hex_nibble n ∷ []) (nibbles (onto octets []))))

module _ {F W : Type 0} (d : AbuseDeps F W) where
  -- whitelist.rs
  unfoldable pub new_whitelist : AbuseConfig F → Whitelist
  new_whitelist config = record {
    static_ips = parse_all d.parse_ip config.whitelist_ips;
    static_cidrs = parse_all d.parse_net config.whitelist_cidrs;
  }

  unfoldable pub contains_ip : List Ip → Ip → Bool
  contains_ip [] ip = false
  contains_ip (i ∷ ips) ip = same_ip i ip || contains_ip ips ip

  unfoldable pub in_cidrs : List (Ip → Bool) → Ip → Bool
  in_cidrs [] ip = false
  in_cidrs (cidr ∷ cidrs) ip = cidr ip || in_cidrs cidrs ip

  unfoldable pub whitelist_key : Ip → Text
  whitelist_key ip = codes "sentio:smtp:whitelist:" ++ d.show_ip ip

  unfoldable pub is_whitelisted : Whitelist → Ip → W → Bool × W
  is_whitelisted self ip w =
      if contains_ip self.static_ips ip || in_cidrs self.static_cidrs ip
      then (true, w)
      else (let (r, w') = d.redis.exists (whitelist_key ip) w in (ok_or_else r false, w'))

  unfoldable pub add : Ip → W → W
  add ip w = (d.redis.set_ex (whitelist_key ip) (codes "1") (86400 * 365) w).1

  unfoldable pub remove : Ip → W → W
  remove ip w = (d.redis.del (whitelist_key ip) w).1

  -- dnsbl_cache.rs
  unfoldable pub cache_key : (list : Text) → Ip → Text
  cache_key list ip = codes "sentio:smtp:dnsbl:" ++ (list ++ (b':' ∷ d.show_ip ip))

  -- A lookup that fails is not cached, and lets the address pass.
  unfoldable pub cache_result : DnsblChecker → (key : Text) → Result Text Bool → W → Bool × W
  cache_result self key (err e) w = (false, w)
  cache_result self key (ok listed) w =
      (listed, (d.redis.set_ex key (if listed then codes "1" else codes "0") self.cache_secs w).1)

  unfoldable pub query : DnsblChecker → (key list reversed : Text) → W → Bool × W
  query self key list reversed w =
      let (r, w') = d.lookup_a (reversed ++ (b'.' ∷ list)) w in cache_result self key r w'

  unfoldable pub after_cache :
      DnsblChecker → (key list reversed : Text) → Result SentioError (Option Text) → W → Bool × W
  after_cache self key list reversed (ok (some cached)) w = (same cached (codes "1"), w)
  after_cache self key list reversed (ok none) w = query self key list reversed w
  after_cache self key list reversed (err e) w = query self key list reversed w

  unfoldable pub check_single_inner : DnsblChecker → Ip → (list reversed : Text) → W → Bool × W
  check_single_inner self ip list reversed w =
      let (r, w') = d.redis.get_opt (cache_key list ip) w in
      after_cache self (cache_key list ip) list reversed r w'

  unfoldable pub check_single : DnsblChecker → Ip → (list : Text) → W → Bool × W
  check_single self ip list w = elim (reverse_ip ip) [
    | some reversed ↦ check_single_inner self ip list reversed w
    | none ↦ (false, w)
  ]

  -- The loop over the lists, with the listings so far.
  unfoldable pub check_lists :
      DnsblChecker → Ip → (reversed : Text) → (lists listings : List Text) → W → List Text × W
  check_lists self ip reversed [] listings w = (listings, w)
  check_lists self ip reversed (list ∷ lists) listings w =
      let (listed, w') = check_single_inner self ip list reversed w in
      check_lists self ip reversed lists (if listed then listings ++ list ∷ [] else listings) w'

  abbrev pub no_listings : List Text → Bool
  no_listings [] = true
  no_listings (l ∷ listings) = false

  unfoldable pub dnsbl_result : List Text → DnsblResult
  dnsbl_result listings = record { listed = not (no_listings listings); listings = listings }

  unfoldable pub dnsbl_check : DnsblChecker → Ip → W → DnsblResult × W
  dnsbl_check self ip w = elim (reverse_ip ip) [
    | some reversed ↦
        (let (listings, w') = check_lists self ip reversed self.lists [] w in
          (dnsbl_result listings, w'))
    | none ↦ (dnsbl_result [], w)
  ]
