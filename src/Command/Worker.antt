-- ===== src/Command/Worker.antt =====
-- main of cmd/worker/main.go: the order in which it opens and closes, and how it ends. The pool's
-- Run enters as the state that it has reached (Worker/Dispatch), for the number of its workers.
use pulse_notify.Prelude.{ℕ, pos_part, Option, none, some}
use pulse_notify.Errors.{Error, ok, err}
use pulse_notify.Config.{Env, Config, load}
use pulse_notify.Database.Connection.{close_pool}
use pulse_notify.Database.Connection as Database
use pulse_notify.Database.Migration.{migrate}
use pulse_notify.Events.{new_consumer}
use pulse_notify.Worker.Pool.{pool_size}
use pulse_notify.Worker.Dispatch.{Run, returned}
use pulse_notify.Process.{
  PoolConfig, ReaderConfig, kafka_reader, opened, closed, worked, Process, Host, Outcome, running,
  exited, panicked, note,
}

module _ {W : Type 0} (host : Host W) where
  -- (c *Consumer) Close of internal/events/consumer.go
  abbrev pub close_consumer : ReaderConfig → Process W → Option Error × Process W
  close_consumer c p =
      let (e, w) = host.close_reader p.world in
      (e, note (closed (kafka_reader c)) (record p { world = w }))

  -- From events.NewConsumer to the end. At the end of main the deferred calls run, the last one
  -- first; os.Exit does not run them.
  unfoldable pub work : Config → PoolConfig → (ℕ → Run) → Process W → Outcome × Process W
  work cfg pool reached p =
      let reader = new_consumer cfg.kafka_brokers cfg.kafka_topic cfg.kafka_group_id in
      let p1 = note worked (note (opened (kafka_reader reader)) p) in
      elim (returned (reached (pos_part (pool_size cfg.worker_concurrency)))) [
        | none ↦ (running, p1)
        | some none ↦ (exited 0, close_pool pool (close_consumer reader p1).1)
        | some (some e) ↦ (exited 1, p1)
      ]

  -- From database.Migrate on.
  unfoldable pub with_pool : Config → PoolConfig → (ℕ → Run) → Process W → Outcome × Process W
  unfolding work migrate
  with_pool cfg pool reached p =
      let (r, p1) = migrate host p in
      elim r [ err e ↦ (exited 1, p1) | ok done ↦ work cfg pool reached p1 ]

  -- From database.Connect on.
  unfoldable pub with_config : Config → (ℕ → Run) → Process W → Outcome × Process W
  unfolding with_pool Database.connect
  with_config cfg reached p =
      let (r, p1) = Database.connect host cfg.database_url p in
      elim r [ err e ↦ (exited 1, p1) | ok pool ↦ with_pool cfg pool reached p1 ]

  -- main
  unfoldable pub worker_main :
      (ℕ → ℕ → ℕ → ℕ) → (Env → Env) → Env → (ℕ → Run) → Process W → Outcome × Process W
  unfolding with_config load
  worker_main fraction dotenv before reached p = elim (load fraction dotenv before) [
    | err e ↦ (panicked e, p)
    | ok cfg ↦ with_config cfg reached p
  ]
