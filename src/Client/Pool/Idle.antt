-- ===== src/Client/Pool/Idle.antt =====
-- The idle connections of the pool (crates/sentio-smtp-client/src/pool.rs).
use sentio.Common.{
  ℕ, ◌-◌, ◌<◌, ◌≤◌, ◌⊎◌, true, false, List, [], ◌∷◌, ◌++◌, some, ◌≡◌, refl, sym, ap, subst,
  some-inj, All, arith, Bool-cases, inl, inr,
}
use sentio.Common.Text.{Text, same_refl}
use sentio.Client.Pool.{
  PoolConfig, PooledEntry, DomainPool, ConnectionPool, find_domain, put_domain, is_valid, pop_valid,
  checkout,
}

module _ (S : Type 0) where
  -- An entry within both limits of its age, and one that is beyond a limit.
  abbrev pub IsFresh : PoolConfig → (now : ℕ) → PooledEntry S → Type 0
  IsFresh config now e =
      (now - e.last_used < config.idle_timeout) × (now - e.created_at < config.max_connection_age)

  abbrev pub IsStale : PoolConfig → (now : ℕ) → PooledEntry S → Type 0
  IsStale config now e =
      (config.idle_timeout ≤ now - e.last_used) ⊎ (config.max_connection_age ≤ now - e.created_at)

  is_valid-IsFresh :
      (config : PoolConfig) (now : ℕ) (e : PooledEntry S)
      → is_valid S config now e ≡ true
      → IsFresh config now e
  unfolding is_valid
  is_valid-IsFresh config now e h = ground (arith, h)

  is_valid-IsStale :
      (config : PoolConfig) (now : ℕ) (e : PooledEntry S)
      → is_valid S config now e ≡ false
      → IsStale config now e
  unfolding is_valid
  is_valid-IsStale config now e h = ground (arith, h)

  -- What is popped: entries that are beyond a limit, and the first one that is within both.
  abbrev pub Popped :
      PoolConfig → (now : ℕ) → (idle rest : List (PooledEntry S)) → (stream : S) → Type 0
  Popped config now idle rest stream =
      (expired : List (PooledEntry S)) × (e : PooledEntry S) × (idle ≡ expired ++ e ∷ rest)
      × All (IsStale config now) expired
      × IsFresh config now e
      × (e.stream ≡ stream)

  pop_valid-Popped :
      (config : PoolConfig) (now : ℕ) (idle : List (PooledEntry S)) (stream : S)
      → (pop_valid S config now idle).0 ≡ some stream
      → Popped config now idle (pop_valid S config now idle).1 stream
  unfolding pop_valid
  pop_valid-Popped config now [] stream h = cc
  pop_valid-Popped config now (e ∷ idle) stream h = elim (Bool-cases (is_valid S config now e)) [
    | inl t ↦
        let r : pop_valid S config now (e ∷ idle) ≡ (some e.stream, idle) = rw t refl in
        subst (λ popped. popped.0 ≡ some stream → Popped config now (e ∷ idle) popped.1 stream)
          (sym r) (λ k. ([], e, refl, tt, is_valid-IsFresh config now e t, some-inj k)) h
    | inr f ↦
        let r : pop_valid S config now (e ∷ idle) ≡ pop_valid S config now idle = rw f refl in
        subst (λ popped. popped.0 ≡ some stream → Popped config now (e ∷ idle) popped.1 stream)
          (sym r)
          (λ k.
            (let (expired, x, shape, all, valid, same_stream) =
                pop_valid-Popped config now idle stream k in
              (
                e ∷ expired,
                x,
                ap (◌∷◌ e) shape,
                (is_valid-IsStale config now e f, all),
                valid,
                same_stream,
              )))
          h
  ]

  put_domain-find_domain :
      (domain : Text) (pool : DomainPool S) (domains : List (Text × DomainPool S))
      → find_domain S domain (put_domain S domain pool domains) ≡ some pool
  unfolding find_domain put_domain
  put_domain-find_domain domain pool [] = ground (arith, same_refl domain)
  put_domain-find_domain domain pool ((name, old) ∷ domains) =
      ground (arith, put_domain-find_domain domain pool domains)

  -- A connection that is handed out was idle, and is within both limits of its age; those that were behind it
  -- and are not are dropped with it, and the others stay for the domain.
  pub checkout_lem :
      (now : ℕ) (domain : Text) (p : ConnectionPool S) (pool : DomainPool S) (stream : S)
      → find_domain S domain p.domains ≡ some pool
      → (checkout S now domain p).0 ≡ some stream
      → (rest : List (PooledEntry S)) × Popped p.config now pool.idle rest stream
        × (find_domain S domain (checkout S now domain p).1.domains
            ≡ some (record pool { idle = rest }))
  unfolding checkout
  checkout_lem now domain p pool stream found h =
      let popped = pop_valid S p.config now pool.idle in
      let left = record p {
        domains = put_domain S domain (record pool { idle = popped.1 }) p.domains;
      } in
      let r : checkout S now domain p ≡ (popped.0, left) = rw (found, checkout) refl in
      subst
        (λ q.
          q.0 ≡ some stream
          → (rest : List (PooledEntry S)) × Popped p.config now pool.idle rest stream
            × (find_domain S domain q.1.domains ≡ some (record pool { idle = rest })))
        (sym r)
        (λ k. (
          popped.1,
          pop_valid-Popped p.config now pool.idle stream k,
          put_domain-find_domain domain (record pool { idle = popped.1 }) p.domains,
        ))
        h
