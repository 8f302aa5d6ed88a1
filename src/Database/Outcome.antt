-- ===== src/Database/Outcome.antt =====
-- The outcome of one statement, by what becomes of it.
use pulse_notify.Prelude.{◌≡◌, refl}
use pulse_notify.Errors.{Result, ok, err, Error, map_error}
use pulse_notify.External.{Delivery, delivered, refused, unacknowledged, Statement, Postgres}
use pulse_notify.State.{Db, State}
use pulse_notify.Database.{Sql, outcome, run_statement}

pub outcome-cases {ℓ} :
    {A : Type 0} (P : Db → Type ℓ) (d : Delivery) (after : Result A × Db) (before : Db)
    → P after.1
    → P before
    → P (outcome d after before).1
outcome-cases P delivered after before p q = p
outcome-cases P (refused e) after before p q = q
outcome-cases P (unacknowledged e) after before p q = p

-- An answer comes only from a statement that was carried out.
pub outcome-eq-ok :
    {A : Type 0} (f : Error → Error) (d : Delivery) (after : Result A × Db) (before : Db) (a : A)
    → map_error f (outcome d after before).0 ≡ ok a
    → (after.0 ≡ ok a) × ((outcome d after before).1 ≡ after.1)
outcome-eq-ok f delivered (ok b, db) before a h = (h, refl)
outcome-eq-ok f delivered (err e, db) before a h = cc
outcome-eq-ok f (refused e) after before a h = cc
outcome-eq-ok f (unacknowledged e) after before a h = cc

-- What the statement keeps of any tables, its run keeps.
pub run_statement-keeps {ℓ} :
    {W A : Type 0} (P : Db → Type ℓ) (pg : Postgres W) (q : Sql A)
    → ((st : Statement) (db : Db) → P db → P (q st db).1)
    → (s : State W) → P s.db
    → P (run_statement pg q s).1.db
unfolding run_statement
run_statement-keeps P pg q keep s p =
    let st = (pg.statement s.world).0 in
    outcome-cases P st.delivery (q st s.db) s.db (keep st s.db p) p
