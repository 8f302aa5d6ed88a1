-- ===== src/Command/Drain.antt =====
-- How cmd/worker/main.go ends, and what it leaves open.
use pulse_notify.Prelude.{
  ℕ, ◌≤◌, ◌+◌, Bool, length, pos_part, ◌≡◌, refl, sym, ap, ◌∙◌, ◌⊎◌, inl, inr, Option, none, some,
  List, [], ◌∷◌,
}
use pulse_notify.Errors.{Error, ok, err, Result-cases}
use pulse_notify.Config.{Env, Config, load}
use pulse_notify.Events.{new_consumer}
use pulse_notify.Database.Connection as Database
use pulse_notify.Database.Migration.{migrations, migrate}
use pulse_notify.Database.Tables.{migrate_from-keeps}
use pulse_notify.Worker.Pool.{pool_size}
use pulse_notify.Worker.Dispatch.{
  Run, RunStep, run, run_start, Dispatcher, fetching, offering, closed, result, returned,
}
use pulse_notify.Worker.Conservation.{count, run-Accounts}
use pulse_notify.Worker.Returned.{all_placed}
use pulse_notify.External.{Message}
use pulse_notify.Process.{
  PoolConfig, Resource, database_pool, kafka_reader, Effect, opened, worked, Process, Host, Outcome,
  running, exited, panicked, opens, closes, IsOpening,
}
use pulse_notify.Process
use pulse_notify.Command.Effects.{Balanced, pool_closed}
use pulse_notify.Command.Worker.{work, with_pool, with_config, worker_main}

abbrev pub working : Config → PoolConfig → List Effect
working cfg pool =
    worked
    ∷ opened (kafka_reader (new_consumer cfg.kafka_brokers cfg.kafka_topic cfg.kafka_group_id))
    ∷ opened (database_pool pool)
    ∷ []

-- The effects, newest first, of a worker process that stopped: the reader is closed, then the pool.
abbrev pub drained : Config → PoolConfig → List Effect
drained cfg pool =
    Process.closed (database_pool pool)
    ∷ Process.closed
        (kafka_reader (new_consumer cfg.kafka_brokers cfg.kafka_topic cfg.kafka_group_id))
    ∷ working cfg pool

-- How the worker goes on once it has migrated: it still works, or it has stopped.
abbrev pub IsWorkEnd : Config → PoolConfig → Option (Option Error) → Outcome → List Effect → Type 0
IsWorkEnd cfg pool result outcome effects =
    ((outcome ≡ running) × (result ≡ none) × (effects ≡ working cfg pool))
    ⊎ ((outcome ≡ exited 0) × (result ≡ some none) × (effects ≡ drained cfg pool))

-- Run returns nil if it returns.
result-cases :
    (d : Dispatcher) (ms : List Message) → (result d ms ≡ none) ⊎ (result d ms ≡ some none)
result-cases closed [] = inr refl
result-cases closed (m ∷ ms) = inl refl
result-cases fetching ms = inl refl
result-cases (offering m) ms = inl refl

returned-cases : (r : Run) → (returned r ≡ none) ⊎ (returned r ≡ some none)
returned-cases r = result-cases r.dispatcher r.busy

pub ok-injective : {A : Type 0} {a b : A} → ok a ≡ ok b → a ≡ b
ok-injective h = cc

module _ {W : Type 0} (host : Host W) where
  abbrev pub workers : Config → ℕ
  workers cfg = pos_part (pool_size cfg.worker_concurrency)

  work-IsWorkEnd :
      (cfg : Config) (pool : PoolConfig) (reached : ℕ → Run) (p : Process W)
      → p.effects ≡ opened (database_pool pool) ∷ []
      → let q = work host cfg pool reached p in
        IsWorkEnd cfg pool (returned (reached (workers cfg))) q.0 q.1.effects
  unfolding work
  work-IsWorkEnd cfg pool reached p before = elim (returned-cases (reached (workers cfg))) [
    | inl waiting ↦ rw (work, waiting, before) (inl (refl, refl, refl))
    | inr done ↦ rw (work, done, before) (inr (refl, refl, refl))
  ]

  -- What becomes of a pool of connections: the migration fails and the pool is open at the end; or
  -- it succeeds, and the worker goes on as above.
  abbrev pub PoolEnds : Config → (ℕ → Run) → PoolConfig → Process W → Outcome → List Effect → Type 0
  PoolEnds cfg reached pool opened_by outcome effects =
      ((e : Error) × ((migrate host opened_by).0 ≡ err e)
        × (outcome ≡ exited 1)
        × (effects ≡ opened (database_pool pool) ∷ []))
      ⊎ (((migrate host opened_by).0 ≡ ok tt)
          × IsWorkEnd cfg pool (returned (reached (workers cfg))) outcome effects)

  with_pool-PoolEnds :
      (cfg : Config) (pool : PoolConfig) (reached : ℕ → Run) (p : Process W)
      → p.effects ≡ opened (database_pool pool) ∷ []
      → let q = with_pool host cfg pool reached p in PoolEnds cfg reached pool p q.0 q.1.effects
  unfolding with_pool migrate
  with_pool-PoolEnds cfg pool reached p before =
      let r = migrate host p in
      let same : r.1.effects ≡ p.effects = (migrate_from-keeps host migrations p).1 in
      elim (Result-cases r.0) [
        | inr (e, failed) ↦ rw (with_pool, failed, same, before) (inl (e, refl, refl, refl))
        | inl (done, migrated) ↦
            rw (with_pool, migrated)
              (inr (refl, work-IsWorkEnd cfg pool reached r.1 (same ∙ before)))
      ]

  -- How the command ends once it has its configuration: Connect fails and nothing is open, or it
  -- gives a pool, of which becomes what is said above.
  abbrev pub WorkEnds : Config → (ℕ → Run) → Process W → Outcome → List Effect → Type 0
  WorkEnds cfg reached p outcome effects =
      let r = Database.connect host cfg.database_url p in
      ((e : Error) × (r.0 ≡ err e) × (outcome ≡ exited 1) × Balanced effects)
      ⊎ ((pool : PoolConfig) × (r.0 ≡ ok pool) × PoolEnds cfg reached pool r.1 outcome effects)

  with_config-WorkEnds :
      (cfg : Config) (reached : ℕ → Run) (p : Process W)
      → p.effects ≡ []
      → let q = with_config host cfg reached p in WorkEnds cfg reached p q.0 q.1.effects
  unfolding with_config
  with_config-WorkEnds cfg reached p before =
      let r = Database.connect host cfg.database_url p in
      elim (Database.connect-IsOpening host cfg.database_url p) [
        | inl (pool, connected, now) ↦
            rw (with_config, connected)
              (inr (
                pool,
                refl,
                with_pool-PoolEnds cfg pool reached r.1
                    (now ∙ ap (λ es. opened (database_pool pool) ∷ es) before),
              ))
        | inr (e, failed, inl same) ↦
            rw (with_config, failed, same, before) (inl (e, refl, refl, λ x. refl))
        | inr (e, failed, inr (pool, undone)) ↦
            rw (with_config, failed, undone, before) (inl (e, refl, refl, pool_closed pool))
      ]

  -- main panics if Load fails, before it opens anything. If Connect fails it ends with code 1 and
  -- nothing open; if the migration fails, with code 1 and the pool of connections open; otherwise
  -- it works, or ends with code 0 after Run has returned, with the reader closed and then the pool.
  pub worker_main-WorkEnds :
      (fraction : ℕ → ℕ → ℕ → ℕ) (dotenv : Env → Env) (before : Env) (reached : ℕ → Run)
      (p : Process W)
      → p.effects ≡ []
      → let q = worker_main host fraction dotenv before reached p in
        ((e : Error) × (load fraction dotenv before ≡ err e)
          × (q.0 ≡ panicked e)
          × (q.1.effects ≡ []))
        ⊎ ((cfg : Config) × (load fraction dotenv before ≡ ok cfg)
            × WorkEnds cfg reached p q.0 q.1.effects)
  unfolding worker_main
  worker_main-WorkEnds fraction dotenv before reached p start =
      elim (Result-cases (load fraction dotenv before)) [
        | inr (e, bad) ↦ rw (worker_main, bad) (inl (e, refl, refl, start))
        | inl (cfg, loaded) ↦
            rw (worker_main, loaded) (inr (cfg, refl, with_config-WorkEnds cfg reached p start))
      ]

  -- When the command ends with code 0, after any steps of the dispatcher and of as many workers as
  -- were configured, no message is being handled: each one that was fetched has been committed, as
  -- often as it was fetched, but for at most one that nobody took and that is not committed.
  pub worker_main_drains :
      (fraction : ℕ → ℕ → ℕ → ℕ) (dotenv : Env → Env) (before : Env) (cfg : Config)
      (reached : ℕ → Run) (es : List RunStep) (p : Process W)
      → p.effects ≡ []
      → load fraction dotenv before ≡ ok cfg
      → run es (run_start (workers cfg)) ≡ some (reached (workers cfg))
      → (worker_main host fraction dotenv before reached p).0 ≡ exited 0
      → let r = reached (workers cfg) in
        ((test : Message → Bool)
          → count test r.fetched ≡ count test r.committed + count test r.dropped)
        × (r.busy ≡ [])
        × (length r.dropped ≤ 1)
  worker_main_drains fraction dotenv before cfg reached es p start loaded steps done =
      elim (worker_main-WorkEnds fraction dotenv before reached p start) [
        | inl (e, bad, panics, _) ↦ cc
        | inr (cfg1, loaded1, inl (e, refused, failed, _)) ↦ cc
        | inr (cfg1, loaded1, inr (pool, connected, inl (e, unmigrated, failed, _))) ↦ cc
        | inr (cfg1, loaded1, inr (pool, connected, inr (migrated, inl (waiting, _, _)))) ↦ cc
        | inr
              (
                cfg1,
                loaded1,
                inr (pool, connected, inr (migrated, inr (stopped, result_there, _))),
              ) ↦
            let same : cfg1 ≡ cfg = ok-injective (sym loaded1 ∙ loaded) in
            all_placed (workers cfg) (reached (workers cfg))
              (ap (λ c. returned (reached (workers c))) (sym same) ∙ result_there)
              (run-Accounts (workers cfg) es (reached (workers cfg)) steps)
      ]
