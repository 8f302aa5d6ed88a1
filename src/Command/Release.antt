-- ===== src/Command/Release.antt =====
-- What the commands hold open when they end.
use pulse_notify.Prelude.{
  ℕ, ◌≡◌, refl, sym, ap, ◌∙◌, ◌⊎◌, inl, inr, none, some, Option-cases, Bool-cases, arith, List, [],
  ◌∷◌, Text,
}
use pulse_notify.Errors.{server_closed, errors_is, ok, Result-cases}
use pulse_notify.Config.{Env, Config, load}
use pulse_notify.Database.Connection.{pool_config, close_pool}
use pulse_notify.Database.Connection as Database
use pulse_notify.Database.Migration.{migrations, migrate}
use pulse_notify.Database.Tables.{migrate_from-keeps}
use pulse_notify.Cache.Connection as Cache
use pulse_notify.Server.{ServerEvent, serve_returned, signalled, wait, stop, run}
use pulse_notify.Process.{
  PoolConfig, Resource, database_pool, redis_client, Effect, opened, Process, Host, Outcome, exited,
}
use pulse_notify.Command.Effects.{
  graceful, IsEnd, IsSignalled, Balanced, pool_closed, all_closed, graceful-Balanced, IsReleased,
  listen_failed-IsReleased, shutdown_failed-IsReleased, exit_code,
}
use pulse_notify.Command.Api.{serve_api, with_database, with_pool, with_config, api_main}

wait-IsSignalled : (events : List ServerEvent) → wait events ≡ some none → IsSignalled events
unfolding wait
wait-IsSignalled [] h = cc
wait-IsSignalled (signalled ∷ es) h = ([], es, refl, tt)
wait-IsSignalled (serve_returned none ∷ es) h =
    let (earlier, later, split, harmless) = wait-IsSignalled es h in
    (
      serve_returned none ∷ earlier,
      later,
      ap (λ xs. serve_returned none ∷ xs) split,
      (tt, harmless),
    )
wait-IsSignalled (serve_returned (some e) ∷ es) h = elim (Bool-cases (errors_is e server_closed)) [
  | inl closed ↦
      let (earlier, later, split, harmless) = wait-IsSignalled es (ground arith) in
      (
        serve_returned (some e) ∷ earlier,
        later,
        ap (λ xs. serve_returned (some e) ∷ xs) split,
        (closed, harmless),
      )
  | inr failure ↦ absurd (ground arith)
]

module _ {W : Type 0} (host : Host W) where
  serve_api-IsEnd :
      (cfg : Config) (pool : PoolConfig) (options : Text) (events : List ServerEvent)
      (p : Process W)
      → p.effects ≡ opened (redis_client options) ∷ opened (database_pool pool) ∷ []
      → IsEnd host events cfg pool options
          (serve_api host cfg pool options events p).0
          (serve_api host cfg pool options events p).1.effects
  unfolding serve_api run stop
  serve_api-IsEnd cfg pool options events p before = elim (Option-cases (wait events)) [
    | inl waiting ↦ rw (serve_api, run, waiting, run, waiting, before) (inl (refl, refl))
    | inr (none, signal) ↦ elim (Option-cases (host.shutdown p.world).0) [
      | inl drained ↦
          rw (serve_api, run, signal, stop, drained, run, signal, stop, drained, before)
            (inr (inl (refl, refl, wait-IsSignalled events signal, (p.world, drained))))
      | inr (e, hung) ↦
          rw (serve_api, run, signal, stop, hung, run, signal, stop, hung, before)
            (inr (inr (refl, inr refl)))
    ]
    | inr (some e, broken) ↦
        rw (serve_api, run, broken, run, broken, before) (inr (inr (refl, inl refl)))
  ]

  -- How the command ends: with an error before it serves, with nothing left open; or as above.
  abbrev pub Ends : List ServerEvent → Config → Outcome → List Effect → Type 0
  Ends events cfg outcome effects =
      ((outcome ≡ exited 1) × Balanced effects)
      ⊎ ((pool : PoolConfig) × (options : Text) × IsEnd host events cfg pool options outcome
            effects)

  with_database-Ends :
      (cfg : Config) (pool : PoolConfig) (events : List ServerEvent) (p : Process W)
      → p.effects ≡ opened (database_pool pool) ∷ []
      → let q = with_database host cfg pool events p in Ends events cfg q.0 q.1.effects
  unfolding with_database
  with_database-Ends cfg pool events p before =
      let r = Cache.connect host cfg.redis_url p in
      elim (Cache.connect-IsOpening host cfg.redis_url p) [
        | inl (options, connected, now) ↦
            rw (with_database, connected)
              (inr (
                pool,
                options,
                serve_api-IsEnd cfg pool options events r.1
                    (now ∙ ap (λ es. opened (redis_client options) ∷ es) before),
              ))
        | inr (e, failed, inl same) ↦
            rw (with_database, failed, same, before) (inl (refl, pool_closed pool))
        | inr (e, failed, inr (options, undone)) ↦
            rw (with_database, failed, undone, before) (inl (refl, all_closed pool options))
      ]

  with_pool-Ends :
      (cfg : Config) (pool : PoolConfig) (events : List ServerEvent) (p : Process W)
      → p.effects ≡ opened (database_pool pool) ∷ []
      → let q = with_pool host cfg pool events p in Ends events cfg q.0 q.1.effects
  unfolding with_pool migrate
  with_pool-Ends cfg pool events p before =
      let r = migrate host p in
      let same : r.1.effects ≡ p.effects = (migrate_from-keeps host migrations p).1 in
      elim (Result-cases r.0) [
        | inr (e, failed) ↦ rw (with_pool, failed, same, before) (inl (refl, pool_closed pool))
        | inl (done, migrated) ↦
            rw (with_pool, migrated) (with_database-Ends cfg pool events r.1 (same ∙ before))
      ]

  with_config-Ends :
      (cfg : Config) (events : List ServerEvent) (p : Process W)
      → p.effects ≡ []
      → let q = with_config host cfg events p in Ends events cfg q.0 q.1.effects
  unfolding with_config
  with_config-Ends cfg events p before =
      let r = Database.connect host cfg.database_url p in
      elim (Database.connect-IsOpening host cfg.database_url p) [
        | inl (pool, connected, now) ↦
            rw (with_config, connected)
              (with_pool-Ends cfg pool events r.1
                (now ∙ ap (λ es. opened (database_pool pool) ∷ es) before))
        | inr (e, failed, inl same) ↦ rw (with_config, failed, same, before) (inl (refl, λ x. refl))
        | inr (e, failed, inr (pool, undone)) ↦
            rw (with_config, failed, undone, before) (inl (refl, pool_closed pool))
      ]

  pub api_main-Ends :
      (fraction : ℕ → ℕ → ℕ → ℕ) (dotenv : Env → Env) (before : Env) (events : List ServerEvent)
      (p : Process W)
      → p.effects ≡ []
      → let q = api_main host fraction dotenv before events p in
        ((q.0 ≡ exited 1) × Balanced q.1.effects)
        ⊎ ((cfg : Config) × (load fraction dotenv before ≡ ok cfg)
            × Ends events cfg q.0 q.1.effects)
  unfolding api_main
  api_main-Ends fraction dotenv before events p start =
      elim (Result-cases (load fraction dotenv before)) [
        | inr (e, bad) ↦ rw (api_main, bad, start) (inl (refl, λ x. refl))
        | inl (cfg, loaded) ↦
            rw (api_main, loaded) (inr (cfg, refl, with_config-Ends cfg events p start))
      ]

  -- If the command ends with code 0, a signal arrived before any failure of ListenAndServe, a
  -- Shutdown returned no error, and what the command had opened was released in this order: the
  -- server, the pool, the writer, the Redis client.
  pub api_main-graceful :
      (fraction : ℕ → ℕ → ℕ → ℕ) (dotenv : Env → Env) (before : Env) (events : List ServerEvent)
      (p : Process W)
      → p.effects ≡ []
      → (api_main host fraction dotenv before events p).0 ≡ exited 0
      → (cfg : Config) × (pool : PoolConfig) × (options : Text) × (load fraction dotenv before
          ≡ ok cfg)
        × ((api_main host fraction dotenv before events p).1.effects ≡ graceful cfg pool options)
        × IsSignalled events
        × ((w : W) × ((host.shutdown w).0 ≡ none))
  api_main-graceful fraction dotenv before events p start done =
      elim (api_main-Ends fraction dotenv before events p start) [
        | inl (failed, _) ↦ cc
        | inr (cfg, loaded, inl (failed, _)) ↦ cc
        | inr (cfg, loaded, inr (pool, options, inl (waiting, _))) ↦ cc
        | inr (cfg, loaded, inr (pool, options, inr (inl (stopped, effects, signal, drained)))) ↦
            (cfg, pool, options, loaded, effects, signal, drained)
        | inr (cfg, loaded, inr (pool, options, inr (inr (failed, _)))) ↦ cc
      ]

  -- However the command ends, each kind of resource was closed as often as it was opened; the only
  -- exception is the pool where the code is 1.
  pub api_main_releases :
      (fraction : ℕ → ℕ → ℕ → ℕ) (dotenv : Env → Env) (before : Env) (events : List ServerEvent)
      (p : Process W) (n : ℕ) (x : Resource)
      → p.effects ≡ []
      → (api_main host fraction dotenv before events p).0 ≡ exited n
      → IsReleased n x (api_main host fraction dotenv before events p).1.effects
  api_main_releases fraction dotenv before events p n x start done =
      elim (api_main-Ends fraction dotenv before events p start) [
        | inl (failed, balanced) ↦ inl (balanced x)
        | inr (cfg, loaded, inl (failed, balanced)) ↦ inl (balanced x)
        | inr (cfg, loaded, inr (pool, options, inl (waiting, _))) ↦ cc
        | inr (cfg, loaded, inr (pool, options, inr (inl (stopped, effects, _, _)))) ↦
            inl (rw effects (graceful-Balanced cfg pool options x))
        | inr (cfg, loaded, inr (pool, options, inr (inr (failed, inl effects)))) ↦
            rw effects
              (listen_failed-IsReleased cfg pool options n x (exit_code (sym failed ∙ done)))
        | inr (cfg, loaded, inr (pool, options, inr (inr (failed, inr effects)))) ↦
            rw effects
              (shutdown_failed-IsReleased cfg pool options n x (exit_code (sym failed ∙ done)))
      ]
