-- ===== src/Config/Load/Laws.antt =====
-- What a configuration that was loaded guarantees.
use tee_relay_client.Base.{
  Bool, true, [], ◌∷◌, Bytes, bytes, bytes_eq, nat_eq, none, some, Option-cases, Result, ok,
  Result-cases, ◌≡◌, ◌≢◌, ◌⊎◌, ◌↔◌, inl, inr, refl, ap, arith,
}
use tee_relay_client.Base.Dict.{Dict}
use tee_relay_client.Base.Int.{pos, ◌≤ℤ◌}
use tee_relay_client.Config.{
  QueueParams, HealthConfig, Config, no_address, default, check_address, check_chain_id,
  check_start_interval, check_queues_loop, check_queues, check_health,
}
use tee_relay_client.Config.Load.{
  Environment, apply_flare_tee_manager_env, apply_unsafe_env, check_all, load_config,
}

-- Each queue makes an attempt, and waits between attempts.
abbrev pub QueuesRetry : Dict Bytes QueueParams → Type 0
QueuesRetry [] = Unit
QueuesRetry ((name, q) ∷ rest) =
    (pos 1 ≤ℤ q.max_attempts)
    × ((q.max_attempts ≡ pos 1) ⊎ (pos 1 ≤ℤ q.time_off))
    × QueuesRetry rest

-- The health server is off, or has a port and a tolerated lag.
abbrev pub HealthSet : HealthConfig → Type 0
HealthSet h =
    (h.disabled ≡ true) ⊎ (pos 1 ≤ℤ h.port) × (h.port ≤ℤ pos 65535) × (pos 1 ≤ℤ h.max_indexer_lag)

-- What the checks establish.
pub record IsValid (c : Config) : Type 0 where
  pub address : c.flare_tee_manager ≢ no_address
  pub chain : c.chain_id ≢ 0
  pub interval : pos 0 ≤ℤ c.start_interval
  pub retries : QueuesRetry c.queues
  pub health : HealthSet c.health

check_queues_loop_lem :
    (qs : Dict Bytes QueueParams) → (check_queues_loop qs ≡ ok tt) ↔ QueuesRetry qs
unfolding check_queues_loop
check_queues_loop_lem [] = (λ h. tt, λ h. refl)
check_queues_loop_lem ((name, q) ∷ rest) =
    let next = check_queues_loop_lem rest in
    (λ h. ground (arith, next.0), λ h. ground (arith, next.1))

check_health_lem : (c : Config) → (check_health c ≡ ok tt) ↔ HealthSet c.health
unfolding check_health
check_health_lem c = (λ h. ground arith, λ h. ground arith)

module _ (env : Environment) where
  check_all-IsValid : (c : Config) → check_all env c ≡ ok tt → IsValid c
  unfolding check_all check_address check_chain_id check_start_interval check_queues
  check_all-IsValid c h = record {
    address = ground arith;
    chain = ground arith;
    interval = ground arith;
    retries = ground (arith, (check_queues_loop_lem c.queues).0);
    health = ground (arith, (check_health_lem c).0);
  }

  -- Where the address of `cfg` comes from: `file`, or the environment, which does not contradict it.
  record Applied (file cfg : Config) : Type 0 where
    source :
        (env.flare_tee_manager_variable ≡ none) × (cfg.flare_tee_manager ≡ file.flare_tee_manager)
        ⊎ ((value : Bytes) × (env.flare_tee_manager_variable ≡ some value)
            × (env.unmarshal_address (env.trim_space value) ≡ ok cfg.flare_tee_manager)
            × ((file.flare_tee_manager ≡ no_address)
                ⊎ (file.flare_tee_manager ≡ cfg.flare_tee_manager)))
    kept : cfg ≡ record file { flare_tee_manager = cfg.flare_tee_manager }

  apply_flare_tee_manager_env-Applied :
      (file cfg : Config) → apply_flare_tee_manager_env env file ≡ ok cfg → Applied file cfg
  unfolding apply_flare_tee_manager_env
  apply_flare_tee_manager_env-Applied file cfg h =
      elim (Option-cases env.flare_tee_manager_variable) [
        | inl e ↦ record { source = inl (e, ground arith); kept = ground arith }
        | inr (value, e) ↦ elim (Result-cases (env.unmarshal_address (env.trim_space value))) [
          | inr bad ↦ absurd (ground arith)
          | inl (address, k) ↦ record {
            source = inr (value, e, ground arith, ground arith);
            kept = ground arith;
          }
        ]
      ]

  apply_unsafe_env_lem :
      (c : Config)
      → (apply_unsafe_env env c
          ≡ record c { allow_unsafe_urls = (apply_unsafe_env env c).allow_unsafe_urls })
        × (((apply_unsafe_env env c).allow_unsafe_urls ≡ c.allow_unsafe_urls)
            ⊎ (env.allow_unsafe_urls_variable ≡ some (bytes "true")))
  unfolding apply_unsafe_env
  apply_unsafe_env_lem c = elim (Option-cases env.allow_unsafe_urls_variable) [
    | inl e ↦ (ground arith, inl (ground arith))
    | inr (v, e) ↦ (ground arith, ground arith)
  ]

  -- What a loaded configuration is made of.
  pub record Loaded (read_to : Config → Result Config) (cfg : Config) : Type 0 where
    pub file : Config
    pub read : read_to default ≡ ok file
    pub valid : IsValid cfg
    pub source :
        (env.flare_tee_manager_variable ≡ none) × (cfg.flare_tee_manager ≡ file.flare_tee_manager)
        ⊎ ((value : Bytes) × (env.flare_tee_manager_variable ≡ some value)
            × (env.unmarshal_address (env.trim_space value) ≡ ok cfg.flare_tee_manager)
            × ((file.flare_tee_manager ≡ no_address)
                ⊎ (file.flare_tee_manager ≡ cfg.flare_tee_manager)))
    pub kept : cfg ≡ record file {
      flare_tee_manager = cfg.flare_tee_manager;
      allow_unsafe_urls = cfg.allow_unsafe_urls;
    }
    pub unsafe :
        (cfg.allow_unsafe_urls ≡ file.allow_unsafe_urls)
        ⊎ (env.allow_unsafe_urls_variable ≡ some (bytes "true"))

  IsValid-unsafe :
      (c : Config) (b : Bool) → IsValid c → IsValid (record c { allow_unsafe_urls = b })
  IsValid-unsafe c b v = record {
    address = v.address;
    chain = v.chain;
    interval = v.interval;
    retries = v.retries;
    health = v.health;
  }

  -- A configuration that `loadConfig` returns passes every check; it is the one of the file, but
  -- for the manager's address, which the environment may add but not contradict, and for unsafe
  -- URLs, which only the environment's value true may admit beyond the file.
  pub load_config-Loaded :
      (read_to : Config → Result Config) (cfg : Config)
      → load_config env read_to ≡ ok cfg
      → Loaded read_to cfg
  unfolding load_config
  load_config-Loaded read_to cfg h = elim (Result-cases (read_to default)) [
    | inr bad ↦ absurd (ground arith)
    | inl (file, e) ↦ elim (Result-cases (apply_flare_tee_manager_env env file)) [
      | inr bad ↦ absurd (ground arith)
      | inl (c, k) ↦ elim (Result-cases (check_all env c)) [
        | inr bad ↦ absurd (ground arith)
        | inl (tt, v) ↦
            let a = apply_flare_tee_manager_env-Applied file c k in
            let (same, unsafe) = apply_unsafe_env_lem c in
            let as_file : c.allow_unsafe_urls ≡ file.allow_unsafe_urls =
              ap (λ (u : Config). u.allow_unsafe_urls) a.kept in
            let end : apply_unsafe_env env c ≡ cfg = ground arith in
            rw (← end) (
              rw same (record {
                file = file;
                read = e;
                valid = IsValid-unsafe c _ (check_all-IsValid c v);
                source = a.source;
                kept =
                    ap
                      (λ (u : Config). record u {
                        allow_unsafe_urls = (apply_unsafe_env env c).allow_unsafe_urls;
                      })
                      a.kept;
                unsafe = ground (arith, unsafe, as_file);
              }))
      ]
    ]
  ]
