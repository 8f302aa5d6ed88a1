-- ===== src/Tests/Commands.antt =====
-- The theorems on the two commands at concrete inputs.
use pulse_notify.Prelude.{ℕ, ◌≡◌, refl, none, some, List, [], ◌∷◌, Text, ◌⊎◌}
use pulse_notify.Errors.{Error, ok, err, errors_is}
use pulse_notify.External.{delivered}
use pulse_notify.Config.{Config, load}
use pulse_notify.Config.Defaults.{only}
use pulse_notify.Database.Connection
use pulse_notify.Database.Migration.{migrate}
use pulse_notify.Database.Tables.{KeepsTables, IsMigrated, migrate-IsMigrated}
use pulse_notify.Server.{ServerEvent, serve_returned, signalled}
use pulse_notify.Worker.Dispatch.{Run, closed}
use pulse_notify.Process.{PoolConfig, database_pool, Process, Host, Outcome, exited, panicked}
use pulse_notify.Command.Effects.{graceful, IsSignalled, IsReleased}
use pulse_notify.Command.Api.{api_main}
use pulse_notify.Command.Worker.{worker_main}
use pulse_notify.Command.Release.{api_main-graceful, api_main_releases}
use pulse_notify.Command.Drain.{WorkEnds, worker_main-WorkEnds}
use pulse_notify.Tests.World.{Outside, start, tick, down, message}
use pulse_notify.Tests.Config.{no_fraction, no_file, url, secret, loads}

abbrev pub host : Host Outside
host = record {
  parse_config = λ u. ok u;
  new_with_config = λ c w. (none, tick w);
  ping_pool = λ w. (none, tick w);
  exec = λ w. (delivered, tick w);
  parse_url = λ u. ok u;
  ping_redis = λ w. (none, tick w);
  close_redis = λ w. (none, w);
  close_writer = λ w. (some down, w);
  close_reader = λ w. (none, w);
  shutdown = λ w. (none, tick w);
}

-- A process that has opened nothing, before the first migration.
abbrev pub fresh : Process Outside
fresh = record {
  world = start.world;
  schema = record { users = none; notifications = none };
  effects = [];
}

abbrev api : List ServerEvent → Outcome × Process Outside
api events = api_main host no_fraction no_file (only url secret) events fresh

stops : (api (signalled ∷ [])).0 ≡ exited 0
unfolding api_main
stops = rw (api_main, loads) refl

breaks : (api (serve_returned (some down) ∷ signalled ∷ [])).0 ≡ exited 1
unfolding api_main errors_is
breaks = rw (api_main, loads) refl

api_main-graceful_example :
    (cfg : Config) × (pool : PoolConfig) × (options : Text) × (load no_fraction no_file
        (only url secret)
      ≡ ok cfg)
    × ((api (signalled ∷ [])).1.effects ≡ graceful cfg pool options)
    × IsSignalled (signalled ∷ [])
    × ((w : Outside) × ((host.shutdown w).0 ≡ none))
api_main-graceful_example =
    api_main-graceful host no_fraction no_file (only url secret) (signalled ∷ []) fresh refl stops

abbrev some_pool : PoolConfig
some_pool = Connection.pool_config url

api_main_releases_example :
    IsReleased 1
      (database_pool some_pool)
      (api (serve_returned (some down) ∷ signalled ∷ [])).1.effects
api_main_releases_example =
    api_main_releases host no_fraction no_file (only url secret)
      (serve_returned (some down) ∷ signalled ∷ []) fresh 1 (database_pool some_pool) refl breaks

-- A message was fetched, handled and committed, and the context has ended.
abbrev reached : ℕ → Run
reached n = record {
  dispatcher = closed;
  idle = n;
  busy = [];
  fetched = message ∷ [];
  committed = message ∷ [];
  dropped = [];
}

abbrev worker : Outcome × Process Outside
worker = worker_main host no_fraction no_file (only url secret) reached fresh

ends : worker.0 ≡ exited 0
unfolding worker_main
ends = rw (worker_main, loads) refl

worker_main-WorkEnds_example :
    ((e : Error) × (load no_fraction no_file (only url secret) ≡ err e)
      × (worker.0 ≡ panicked e)
      × (worker.1.effects ≡ []))
    ⊎ ((cfg : Config) × (load no_fraction no_file (only url secret) ≡ ok cfg)
        × WorkEnds host cfg reached fresh worker.0 worker.1.effects)
worker_main-WorkEnds_example =
    worker_main-WorkEnds host no_fraction no_file (only url secret) reached fresh refl

migrate-IsMigrated_example :
    KeepsTables fresh.schema (migrate host fresh).1.schema
    × ((migrate host fresh).0 ≡ ok tt → IsMigrated (migrate host fresh).1.schema)
migrate-IsMigrated_example = migrate-IsMigrated host fresh
