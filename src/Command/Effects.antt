-- ===== src/Command/Effects.antt =====
-- The effects of cmd/api/main.go and cmd/worker/main.go, and what they leave open.
use pulse_notify.Prelude.{
  ℕ, ◌≡◌, refl, ◌⊎◌, inl, inr, Bool, true, false, none, some, List, [], ◌∷◌, ◌++◌, All, Text,
}
use pulse_notify.Errors.{errors_is, server_closed}
use pulse_notify.Config.{Config, addr}
use pulse_notify.Events.{new_producer}
use pulse_notify.Server.{ServerEvent, serve_returned, signalled}
use pulse_notify.Process.{
  Host, PoolConfig, Resource, database_pool, redis_client, kafka_writer, kafka_reader, Effect,
  opened, closed, served, shut_down, Outcome, running, exited, opens, closes,
}

-- The effects, newest first, of an API process that came to serving requests, stopped on a signal
-- and released all that it held.
abbrev pub graceful : Config → PoolConfig → Text → List Effect
graceful cfg pool options =
    let writer = new_producer cfg.kafka_brokers cfg.kafka_topic in
    closed (redis_client options)
    ∷ closed (kafka_writer writer)
    ∷ closed (database_pool pool)
    ∷ shut_down
    ∷ served (addr cfg)
    ∷ opened (kafka_writer writer)
    ∷ opened (redis_client options)
    ∷ opened (database_pool pool)
    ∷ []

abbrev pub serving : Config → PoolConfig → Text → List Effect
serving cfg pool options =
    served (addr cfg)
    ∷ opened (kafka_writer (new_producer cfg.kafka_brokers cfg.kafka_topic))
    ∷ opened (redis_client options)
    ∷ opened (database_pool pool)
    ∷ []

-- The effects of one where ListenAndServe or Shutdown failed: the pool is not closed.
abbrev pub failed_with : Config → Text → List Effect → List Effect
failed_with cfg options before =
    closed (redis_client options)
    ∷ closed (kafka_writer (new_producer cfg.kafka_brokers cfg.kafka_topic))
    ∷ before

-- What does not end the server: ListenAndServe returns nil or http.ErrServerClosed.
abbrev pub IsHarmless : ServerEvent → Type 0
IsHarmless (serve_returned none) = Unit
IsHarmless (serve_returned (some e)) = errors_is e server_closed ≡ true
IsHarmless signalled = ◌≡◌ {A = Bool} false true

-- A signal arrives, and until then no failure of ListenAndServe.
abbrev pub IsSignalled : List ServerEvent → Type 0
IsSignalled events =
    (earlier : List ServerEvent) × (later : List ServerEvent) × (events
      ≡ earlier ++ signalled ∷ later)
    × All IsHarmless earlier

-- How serving ends: not yet, after a signal and a Shutdown without an error, or with an error of
-- ListenAndServe or of Shutdown.
abbrev pub IsEnd :
    {W : Type 0}
    → Host W
    → List ServerEvent
    → Config
    → PoolConfig
    → Text
    → Outcome
    → List Effect
    → Type 0
IsEnd {W} host events cfg pool options outcome effects =
    ((outcome ≡ running) × (effects ≡ serving cfg pool options))
    ⊎ (((outcome ≡ exited 0)
          × (effects ≡ graceful cfg pool options)
          × IsSignalled events
          × ((w : W) × ((host.shutdown w).0 ≡ none)))
        ⊎ ((outcome ≡ exited 1)
            × ((effects ≡ failed_with cfg options (serving cfg pool options))
                ⊎ (effects ≡ failed_with cfg options (shut_down ∷ serving cfg pool options)))))

-- Of every kind of resource as many are closed as were opened.
abbrev pub Balanced : List Effect → Type 0
Balanced effects = (x : Resource) → closes x effects ≡ opens x effects

pub pool_closed :
    (pool : PoolConfig) → Balanced (closed (database_pool pool) ∷ opened (database_pool pool) ∷ [])
pool_closed pool (database_pool c) = refl
pool_closed pool (redis_client c) = refl
pool_closed pool (kafka_writer c) = refl
pool_closed pool (kafka_reader c) = refl

pub all_closed :
    (pool : PoolConfig) (options : Text)
    → Balanced (
        closed (database_pool pool)
        ∷ closed (redis_client options)
        ∷ opened (redis_client options)
        ∷ opened (database_pool pool)
        ∷ [])
all_closed pool options (database_pool c) = refl
all_closed pool options (redis_client c) = refl
all_closed pool options (kafka_writer c) = refl
all_closed pool options (kafka_reader c) = refl

pub graceful-Balanced :
    (cfg : Config) (pool : PoolConfig) (options : Text) → Balanced (graceful cfg pool options)
graceful-Balanced cfg pool options (database_pool c) = refl
graceful-Balanced cfg pool options (redis_client c) = refl
graceful-Balanced cfg pool options (kafka_writer c) = refl
graceful-Balanced cfg pool options (kafka_reader c) = refl

-- A kind of resource that is closed, or the pool of a process that ended with code 1.
abbrev pub IsReleased : ℕ → Resource → List Effect → Type 0
IsReleased n x effects =
    (closes x effects ≡ opens x effects) ⊎ ((n ≡ 1) × ((c : PoolConfig) × (x ≡ database_pool c)))

pub listen_failed-IsReleased :
    (cfg : Config) (pool : PoolConfig) (options : Text) (n : ℕ) (x : Resource)
    → n ≡ 1
    → IsReleased n x (failed_with cfg options (serving cfg pool options))
listen_failed-IsReleased cfg pool options n (database_pool c) one = inr (one, (c, refl))
listen_failed-IsReleased cfg pool options n (redis_client c) one = inl refl
listen_failed-IsReleased cfg pool options n (kafka_writer c) one = inl refl
listen_failed-IsReleased cfg pool options n (kafka_reader c) one = inl refl

pub shutdown_failed-IsReleased :
    (cfg : Config) (pool : PoolConfig) (options : Text) (n : ℕ) (x : Resource)
    → n ≡ 1
    → IsReleased n x (failed_with cfg options (shut_down ∷ serving cfg pool options))
shutdown_failed-IsReleased cfg pool options n (database_pool c) one = inr (one, (c, refl))
shutdown_failed-IsReleased cfg pool options n (redis_client c) one = inl refl
shutdown_failed-IsReleased cfg pool options n (kafka_writer c) one = inl refl
shutdown_failed-IsReleased cfg pool options n (kafka_reader c) one = inl refl

pub exit_code : {n m : ℕ} → exited n ≡ exited m → m ≡ n
exit_code h = cc
