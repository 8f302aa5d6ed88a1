-- ===== src/Together.antt =====
-- The API (internal/router and what is behind it) and the pool of workers (internal/worker/pool.go)
-- on one database: what both do to the tables, in any order. A request is served between two turns
-- of the pool, and the world outside may change at any time.
pub mod Requests
pub mod Turns
pub mod Growth
pub mod Sound
use pulse_notify.Prelude.{ℤ, Text, codes}
use pulse_notify.Model.{Uuid}
use pulse_notify.External.{Postgres}
use pulse_notify.State.{Db, State}
use pulse_notify.Repository.Users
use pulse_notify.Repository.Notifications

-- A property of the tables that the four writes of the repositories keep, where a user is created
-- with the role user.
pub record IsKept (W : Type 0) (P : Db → Type 0) : Type 0 where
  pub by_user :
      (pg : Postgres W) (email hash name : Text) (s : State W)
      → P s.db
      → P (Users.create pg email hash name (codes "user") s).1.db
  pub by_notification :
      (pg : Postgres W) (id : Uuid) (channel recipient subject body : Text) (s : State W)
      → P s.db
      → P (Notifications.create pg id channel recipient subject body s).1.db
  pub by_sent :
      (pg : Postgres W) (id : Uuid) (attempts : ℤ) (s : State W)
      → P s.db
      → P (Notifications.mark_sent pg id attempts s).1.db
  pub by_failed :
      (pg : Postgres W) (id : Uuid) (attempts : ℤ) (last_error : Text) (s : State W)
      → P s.db
      → P (Notifications.mark_failed pg id attempts last_error s).1.db
