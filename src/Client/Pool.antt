-- ===== src/Client/Pool.antt =====
-- The pool of connections to remote servers: crates/sentio-smtp-client/src/pool.rs.
pub mod Idle
use sentio.Common.{
  ℕ, zero, suc, ◌+◌, ◌-◌, Bool, true, false, not, ◌&&◌, List, [], ◌∷◌, ◌++◌, Option, none, some,
  length, ltb, if◌then◌else◌,
}
use sentio.Common.Text.{Text, same}

-- Durations and times are numbers of one unit.
pub record PoolConfig : Type 0 where
  pub max_connections : ℕ
  pub max_connections_per_dest : ℕ
  pub idle_timeout : ℕ
  pub max_connection_age : ℕ

abbrev pub default_config : PoolConfig
default_config = record {
  max_connections = 1000;
  max_connections_per_dest = 20;
  idle_timeout = 300;
  max_connection_age = 3600;
}

-- A number of permits that are free. Semaphores are shared, so they stand in a store, and others name them by
-- their index.
abbrev pub Semaphores : Type 0
Semaphores = List ℕ

-- `acquire_owned`: none while there is no permit.
unfoldable pub take_permit : Semaphores → ℕ → Option Semaphores
take_permit [] i = none
take_permit (zero ∷ sems) zero = none
take_permit (suc n ∷ sems) zero = some (n ∷ sems)
take_permit (n ∷ sems) (suc i) = elim (take_permit sems i) [
  | none ↦ none
  | some rest ↦ some (n ∷ rest)
]

-- A permit that is dropped is free again.
unfoldable pub give_permit : Semaphores → ℕ → Semaphores
give_permit [] i = []
give_permit (n ∷ sems) zero = suc n ∷ sems
give_permit (n ∷ sems) (suc i) = n ∷ give_permit sems i

module _ (S : Type 0) where
  pub record PooledEntry : Type 0 where
    pub stream : S
    pub created_at : ℕ
    pub last_used : ℕ

  -- The idle connections, the last one first.
  pub record DomainPool : Type 0 where
    pub idle : List PooledEntry
    pub semaphore : ℕ

  pub record PoolPermit : Type 0 where
    pub domain : ℕ

  -- `global` counts the free permits of the semaphore for all destinations.
  pub record ConnectionPool : Type 0 where
    pub config : PoolConfig
    pub global : ℕ
    pub semaphores : Semaphores
    pub domains : List (Text × DomainPool)

  abbrev pub new : PoolConfig → ConnectionPool
  new config = record {
    config = config;
    global = config.max_connections;
    semaphores = [];
    domains = [];
  }

  unfoldable pub find_domain : (domain : Text) → List (Text × DomainPool) → Option DomainPool
  find_domain domain [] = none
  find_domain domain ((name, pool) ∷ domains) =
      if same name domain then some pool else find_domain domain domains

  unfoldable pub put_domain :
      (domain : Text) → DomainPool → List (Text × DomainPool) → List (Text × DomainPool)
  put_domain domain pool [] = (domain, pool) ∷ []
  put_domain domain pool ((name, old) ∷ domains) =
      let rest = put_domain domain pool domains in
      if same name domain then (name, pool) ∷ domains else (name, old) ∷ rest

  -- `entry(domain).or_insert_with(…)`, with the entry.
  unfoldable pub entry : (domain : Text) → ConnectionPool → DomainPool × ConnectionPool
  entry domain p = elim (find_domain domain p.domains) [
    | some pool ↦ (pool, p)
    | none ↦
        let fresh : DomainPool = record { idle = []; semaphore = length p.semaphores } in
        (
          fresh,
          record p {
            semaphores = p.semaphores ++ p.config.max_connections_per_dest ∷ [];
            domains = put_domain domain fresh p.domains;
          },
        )
  ]

  -- The first wait of `acquire_permit`, none while there is no permit for another connection.
  unfoldable pub acquire_global : ConnectionPool → Option ConnectionPool
  acquire_global p = elim p.global [ zero ↦ none | suc n ↦ some (record p { global = n }) ]

  -- The second one, on the semaphore that the entry has at that time.
  unfoldable pub acquire_domain :
      (semaphore : ℕ) → ConnectionPool → Option (PoolPermit × ConnectionPool)
  acquire_domain semaphore p = elim (take_permit p.semaphores semaphore) [
    | none ↦ none
    | some sems ↦ some (record { domain = semaphore }, record p { semaphores = sems })
  ]

  unfoldable pub acquire_permit :
      (domain : Text) → ConnectionPool → Option (PoolPermit × ConnectionPool)
  acquire_permit domain p = elim (acquire_global p) [
    | none ↦ none
    | some p' ↦ (let (pool, p'') = entry domain p' in acquire_domain pool.semaphore p'')
  ]

  unfoldable pub release : PoolPermit → ConnectionPool → ConnectionPool
  release permit p = record p {
    global = suc p.global;
    semaphores = give_permit p.semaphores permit.domain;
  }

  unfoldable pub is_valid : PoolConfig → (now : ℕ) → PooledEntry → Bool
  is_valid config now e =
      ltb (now - e.last_used) config.idle_timeout
      && ltb (now - e.created_at) config.max_connection_age

  -- The loop that pops entries, with what it leaves.
  unfoldable pub pop_valid : PoolConfig → (now : ℕ) → List PooledEntry → Option S × List PooledEntry
  pop_valid config now [] = (none, [])
  pop_valid config now (e ∷ idle) =
      let rest = pop_valid config now idle in
      if is_valid config now e then (some e.stream, idle) else rest

  unfoldable pub checkout : (now : ℕ) → (domain : Text) → ConnectionPool → Option S × ConnectionPool
  checkout now domain p = elim (find_domain domain p.domains) [
    | none ↦ (none, p)
    | some pool ↦
        let (stream, idle) = pop_valid p.config now pool.idle in
        (stream, record p { domains = put_domain domain (record pool { idle = idle }) p.domains })
  ]

  unfoldable pub checkin_with_age :
      (now : ℕ) → (domain : Text) → S → (created_at : ℕ) → ConnectionPool → ConnectionPool
  checkin_with_age now domain stream created_at p =
      let (pool, p') = entry domain p in
      let e : PooledEntry = record { stream = stream; created_at = created_at; last_used = now } in
      record p' { domains = put_domain domain (record pool { idle = e ∷ pool.idle }) p'.domains }

  unfoldable pub checkin : (now : ℕ) → (domain : Text) → S → ConnectionPool → ConnectionPool
  checkin now domain stream p = checkin_with_age now domain stream now p

  -- `idle.retain`.
  unfoldable pub retain_valid : PoolConfig → (now : ℕ) → List PooledEntry → List PooledEntry
  retain_valid config now [] = []
  retain_valid config now (e ∷ idle) =
      let rest = retain_valid config now idle in if is_valid config now e then e ∷ rest else rest

  -- An entry without idle connections goes, with its semaphore, whatever permits of it are out.
  abbrev pub keep_idle :
      (domain : Text) → DomainPool → List (Text × DomainPool) → List (Text × DomainPool)
  keep_idle domain pool domains = elim pool.idle [
    | [] ↦ domains
    | e ∷ idle ↦ (domain, pool) ∷ domains
  ]

  -- `domains.retain`, with the number of the connections that are removed.
  unfoldable pub cleanup_domains :
      PoolConfig → (now : ℕ) → List (Text × DomainPool) → ℕ × List (Text × DomainPool)
  cleanup_domains config now [] = (0, [])
  cleanup_domains config now ((domain, pool) ∷ domains) =
      let (removed, rest) = cleanup_domains config now domains in
      let idle = retain_valid config now pool.idle in
      (
        (length pool.idle - length idle) + removed,
        keep_idle domain (record pool { idle = idle }) rest,
      )

  unfoldable pub cleanup_expired : (now : ℕ) → ConnectionPool → ℕ × ConnectionPool
  cleanup_expired now p =
      let (removed, domains) = cleanup_domains p.config now p.domains in
      (removed, record p { domains = domains })
