-- ===== src/Database.antt =====
-- internal/database: the schema of migrate.go as checks on a new row, and one SQL statement as a
-- step of the state. What the server does beyond the SQL text (losing a statement or its answer,
-- drawing a UUID, reading its clock) comes from the interface `Postgres`.
pub mod Outcome
pub mod Connection
pub mod Migration
pub mod Tables
use pulse_notify.Prelude.{
  ℕ, ◌^◌, ℤ, pos, negsuc, Bool, ◌&&◌, ◌||◌, Option, none, some, leb, ltb, ◌==◌, if◌then◌else◌, ◌∷◌,
  Text, codes, text_eq, length, any,
}
use pulse_notify.Errors.{Error, sentinel, no_rows, pg_error, other, Result, ok, err}
use pulse_notify.Model.{User, Notification}
use pulse_notify.External.{Delivery, delivered, refused, unacknowledged, Statement, Postgres}
use pulse_notify.State.{Db, M, stated}

-- The effect of a SQL text: its answer and the new tables.
abbrev pub Sql : Type 0 → Type 0
Sql A = Statement → Db → Result A × Db

abbrev pub outcome : {A : Type 0} → Delivery → Result A × Db → Db → Result A × Db
outcome delivered (r, db) before = (r, db)
outcome (refused e) after before = (err e, before)
outcome (unacknowledged e) (r, db) before = (err e, db)

-- QueryRow with Scan, and Exec: a statement is carried out whole or not at all.
unfoldable pub run_statement : {W A : Type 0} → Postgres W → Sql A → M W A
run_statement pg q s =
    let (st, w) = pg.statement s.world in
    let (r, db) = outcome st.delivery (q st s.db) s.db in
    (r, record s { db = db; world = w; calls = stated st.delivery ∷ s.calls })

-- The first row of an answer; Scan reports `pgx.ErrNoRows` where there is none.
abbrev pub first_row : {A : Type 0} → Option A → Result A
first_row none = err (sentinel no_rows)
first_row (some a) = ok a

-- VARCHAR(n)
abbrev pub fits : ℕ → Text → Bool
fits n s = leb (length s) n

abbrev pub value_too_long : Error
value_too_long = pg_error (codes "22001") (codes "value too long")

abbrev pub unique_violation : Error
unique_violation = pg_error (codes "23505") (codes "duplicate key value")

abbrev pub foreign_key_violation : Error
foreign_key_violation = pg_error (codes "23503") (codes "foreign key constraint")

-- CREATE TABLE users: the widths, the primary key and UNIQUE (email).
abbrev pub user_fits : User → Bool
user_fits u = fits 255 u.email && fits 255 u.password_hash && fits 100 u.name && fits 50 u.role

abbrev pub same_user : User → User → Bool
same_user u v = v.id == u.id || text_eq v.email u.email

unfoldable pub user_violation : User → Db → Option Error
user_violation u db =
    if user_fits u
    then (if any (same_user u) db.users then some unique_violation else none)
    else some value_too_long

-- CREATE TABLE notifications: the widths, the primary key and REFERENCES users(id).
abbrev pub notification_fits : Notification → Bool
notification_fits n = fits 20 n.channel && fits 255 n.recipient && fits 255 n.subject

unfoldable pub notification_violation : Notification → Db → Option Error
notification_violation n db =
    if notification_fits n
    then (if any (λ (m : Notification). m.id == n.id) db.notifications
        then some unique_violation
        else if any (λ (u : User). u.id == n.user_id) db.users
        then none
        else some foreign_key_violation)
    else some value_too_long

-- An argument for a column of type INT (four bytes).
abbrev pub fits_int4 : ℤ → Bool
fits_int4 (pos n) = ltb n (2 ^ 31)
fits_int4 (negsuc n) = ltb n (2 ^ 31)

abbrev pub int4_overflow : Error
int4_overflow = other (codes "value out of range for int4")
