-- ===== src/Database/Migration.antt =====
-- Migrate of internal/database/migrate.go. The two SQL texts are constructors; each one is sent
-- without parameters, so that the server runs it in one transaction.
use pulse_notify.Prelude.{Option, none, some, List, [], ◌∷◌, codes}
use pulse_notify.Errors.{Error, pg_error, wrapped, Result, ok, err}
use pulse_notify.Model.{Notification}
use pulse_notify.External.{Delivery, delivered, refused, unacknowledged}
use pulse_notify.Process.{Schema, Host, Action}

pub data Migration : Type 0 where
  create_users_sql create_notifications_sql : Migration

abbrev pub migrations : List Migration
migrations = create_users_sql ∷ create_notifications_sql ∷ []

-- CREATE TABLE IF NOT EXISTS
abbrev pub create_if_missing : {A : Type 0} → Option (List A) → Option (List A)
create_if_missing none = some []
create_if_missing (some rows) = some rows

abbrev undefined_table : Error
undefined_table = pg_error (codes "42P01") (codes "relation \"users\" does not exist")

-- user_id UUID NOT NULL REFERENCES users(id): looked up only if the table is to be created.
abbrev pub create_notifications : Schema → Option (List Notification) → Result Schema
create_notifications db (some rows) = ok db
create_notifications db none = elim db.users [
  | none ↦ err undefined_table
  | some users ↦ ok (record db { notifications = some [] })
]

abbrev pub run_migration : Migration → Schema → Result Schema
run_migration create_users_sql db = ok (record db { users = create_if_missing db.users })
run_migration create_notifications_sql db = create_notifications db db.notifications

-- The answer and the tables after a statement.
abbrev pub after_exec : Delivery → Result Schema → Schema → Option Error × Schema
after_exec (refused e) r before = (some e, before)
after_exec _ (err e) before = (some e, before)
after_exec delivered (ok db) before = (none, db)
after_exec (unacknowledged e) (ok db) before = (some e, db)

module _ {W : Type 0} (host : Host W) where
  unfoldable pub migrate_from : List Migration → Action W (Unit {0})
  migrate_from [] p = (ok tt, p)
  migrate_from (m ∷ ms) p =
      let (d, w) = host.exec p.world in
      let (e, schema) = after_exec d (run_migration m p.schema) p.schema in
      let p1 = record p { world = w; schema = schema } in
      let rest = migrate_from ms p1 in
      elim e [ none ↦ rest | some x ↦ (err (wrapped (codes "run migrations") x), p1) ]

  -- Migrate
  unfoldable pub migrate : Action W (Unit {0})
  unfolding migrate_from
  migrate p = migrate_from migrations p
