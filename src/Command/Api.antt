-- ===== src/Command/Api.antt =====
-- main of cmd/api/main.go: the order in which it opens and closes, and how it ends. What it builds
-- for the router is in Command/Wiring.
use pulse_notify.Prelude.{ℕ, Option, none, some, List, Text}
use pulse_notify.Errors.{Error, ok, err}
use pulse_notify.Config.{Env, Config, load}
use pulse_notify.Database.Connection.{close_pool}
use pulse_notify.Database.Migration.{migrate}
use pulse_notify.Database.Connection as Database
use pulse_notify.Cache.Connection as Cache
use pulse_notify.Events.{new_producer}
use pulse_notify.Server
use pulse_notify.Server.{ServerEvent}
use pulse_notify.Process.{
  PoolConfig, WriterConfig, kafka_writer, opened, closed, Process, Host, Outcome, running, exited,
  note,
}

abbrev pub exit_of : Option Error → Outcome
exit_of none = exited 0
exit_of (some e) = exited 1

module _ {W : Type 0} (host : Host W) where
  -- (p *Producer) Close of internal/events/producer.go
  abbrev pub close_producer : WriterConfig → Process W → Option Error × Process W
  close_producer c p =
      let (e, w) = host.close_writer p.world in
      (e, note (closed (kafka_writer c)) (record p { world = w }))

  -- The end of main: the errors of the two calls are only logged.
  abbrev pub release : WriterConfig → Text → Process W → Process W
  release writer options p = (Cache.close host options (close_producer writer p).1).1

  -- From events.NewProducer to the end.
  unfoldable pub serve_api :
      Config → PoolConfig → Text → List ServerEvent → Process W → Outcome × Process W
  unfolding Server.run
  serve_api cfg pool options events p =
      let writer = new_producer cfg.kafka_brokers cfg.kafka_topic in
      let p1 = note (opened (kafka_writer writer)) p in
      let (returned, p2) = Server.run host (Server.new cfg (some pool)) events p1 in
      elim returned [ none ↦ (running, p2) | some e ↦ (exit_of e, release writer options p2) ]

  -- From cache.Connect on.
  unfoldable pub with_database :
      Config → PoolConfig → List ServerEvent → Process W → Outcome × Process W
  unfolding serve_api Cache.connect
  with_database cfg pool events p =
      let (r, p1) = Cache.connect host cfg.redis_url p in
      elim r [
        | err e ↦ (exited 1, close_pool pool p1)
        | ok options ↦ serve_api cfg pool options events p1
      ]

  -- From database.Migrate on.
  unfoldable pub with_pool :
      Config → PoolConfig → List ServerEvent → Process W → Outcome × Process W
  unfolding with_database migrate
  with_pool cfg pool events p =
      let (r, p1) = migrate host p in
      elim r [ err e ↦ (exited 1, close_pool pool p1) | ok done ↦ with_database cfg pool events p1 ]

  -- From database.Connect on.
  unfoldable pub with_config : Config → List ServerEvent → Process W → Outcome × Process W
  unfolding with_pool Database.connect
  with_config cfg events p =
      let (r, p1) = Database.connect host cfg.database_url p in
      elim r [ err e ↦ (exited 1, p1) | ok pool ↦ with_pool cfg pool events p1 ]

  -- main, with what the server's select receives.
  unfoldable pub api_main :
      (ℕ → ℕ → ℕ → ℕ) → (Env → Env) → Env → List ServerEvent → Process W → Outcome × Process W
  unfolding with_config load
  api_main fraction dotenv before events p = elim (load fraction dotenv before) [
    | err e ↦ (exited 1, p)
    | ok cfg ↦ with_config cfg events p
  ]
