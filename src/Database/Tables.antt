-- ===== src/Database/Tables.antt =====
-- What Migrate of internal/database/migrate.go leaves of the tables.
use pulse_notify.Prelude.{
  ◌≡◌, refl, sym, ap, ◌∙◌, subst, arith, inl, inr, Option, none, some, Option-cases, List, [], ◌∷◌,
}
use pulse_notify.Errors.{Result, ok, err}
use pulse_notify.Model.{User, Notification}
use pulse_notify.External.{Delivery, delivered, refused, unacknowledged}
use pulse_notify.Process.{Schema, Process, Host}
use pulse_notify.Database.Migration.{
  Migration, create_users_sql, create_notifications_sql, migrations, create_if_missing,
  create_notifications, run_migration, after_exec, migrate_from, migrate,
}

-- A table that exists is still there, with its rows.
abbrev pub Keeps : {A : Type 0} → Option (List A) → Option (List A) → Type 0
Keeps none after = Unit
Keeps (some rows) after = after ≡ some rows

abbrev pub KeepsTables : Schema → Schema → Type 0
KeepsTables before after =
    Keeps before.users after.users × Keeps before.notifications after.notifications

-- Both tables exist.
abbrev pub IsMigrated : Schema → Type 0
IsMigrated db =
    ((us : List User) × (db.users ≡ some us))
    × ((ns : List Notification) × (db.notifications ≡ some ns))

ok-injective : {A : Type 0} {a b : A} → ok a ≡ ok b → a ≡ b
ok-injective h = cc

Keeps-refl : {A : Type 0} (o : Option (List A)) → Keeps o o
Keeps-refl none = tt
Keeps-refl (some rows) = refl

Keeps-trans : {A : Type 0} (a b c : Option (List A)) → Keeps a b → Keeps b c → Keeps a c
Keeps-trans none b c h k = tt
Keeps-trans (some rows) none c h k = cc
Keeps-trans (some rows) (some others) c h k = k ∙ h

Keeps-create_if_missing : {A : Type 0} (o : Option (List A)) → Keeps o (create_if_missing o)
Keeps-create_if_missing none = tt
Keeps-create_if_missing (some rows) = refl

create_notifications-KeepsTables :
    (db db1 : Schema) (o : Option (List Notification))
    → db.notifications ≡ o
    → create_notifications db o ≡ ok db1
    → KeepsTables db db1
create_notifications-KeepsTables db db1 (some rows) there h =
    subst (KeepsTables db) (ok-injective h) (Keeps-refl db.users, Keeps-refl db.notifications)
create_notifications-KeepsTables db db1 none missing h = elim (Option-cases db.users) [
  | inl no_users ↦ absurd (ground arith)
  | inr (us, users) ↦
      let made : record db { notifications = some [] } ≡ db1 = ground arith in
      subst (KeepsTables db) made (Keeps-refl db.users, rw missing tt)
]

run_migration-KeepsTables :
    (m : Migration) (db db1 : Schema) → run_migration m db ≡ ok db1 → KeepsTables db db1
run_migration-KeepsTables create_users_sql db db1 h =
    subst (KeepsTables db) (ok-injective h)
      (Keeps-create_if_missing db.users, Keeps-refl db.notifications)
run_migration-KeepsTables create_notifications_sql db db1 h =
    create_notifications-KeepsTables db db1 db.notifications refl h

after_exec-KeepsTables :
    (d : Delivery) (r : Result Schema) (db : Schema)
    → ((db1 : Schema) → r ≡ ok db1 → KeepsTables db db1)
    → KeepsTables db (after_exec d r db).1
after_exec-KeepsTables (refused e) r db h = (Keeps-refl db.users, Keeps-refl db.notifications)
after_exec-KeepsTables delivered (err e) db h = (Keeps-refl db.users, Keeps-refl db.notifications)
after_exec-KeepsTables (unacknowledged e1) (err e) db h =
    (Keeps-refl db.users, Keeps-refl db.notifications)
after_exec-KeepsTables delivered (ok db1) db h = h db1 refl
after_exec-KeepsTables (unacknowledged e) (ok db1) db h = h db1 refl

after_exec-none :
    (d : Delivery) (r : Result Schema) (db : Schema)
    → (after_exec d r db).0 ≡ none
    → r ≡ ok (after_exec d r db).1
after_exec-none (refused e) r db h = cc
after_exec-none delivered (err e) db h = cc
after_exec-none (unacknowledged e1) (err e) db h = cc
after_exec-none delivered (ok db1) db h = refl
after_exec-none (unacknowledged e) (ok db1) db h = cc

created-some :
    {A : Type 0} (o : Option (List A)) → (rows : List A) × (create_if_missing o ≡ some rows)
created-some none = ([], refl)
created-some (some rows) = (rows, refl)

create_notifications-some :
    (db db1 : Schema) (o : Option (List Notification))
    → db.notifications ≡ o
    → create_notifications db o ≡ ok db1
    → (ns : List Notification) × (db1.notifications ≡ some ns)
create_notifications-some db db1 (some rows) there h = (rows, ground arith)
create_notifications-some db db1 none missing h = elim (Option-cases db.users) [
  | inl no_users ↦ absurd (ground arith)
  | inr (us, users) ↦
      let made : record db { notifications = some [] } ≡ db1 = ground arith in
      ([], ap (λ (x : Schema). x.notifications) (sym made))
]

Keeps-some :
    {A : Type 0} (before after : Option (List A))
    → (rows : List A) × (before ≡ some rows)
    → Keeps before after
    → after ≡ before
Keeps-some none after (rows, h) k = cc
Keeps-some (some rows) after h k = k

module _ {W : Type 0} (host : Host W) where
  -- The process after one statement.
  abbrev pub step : Migration → Process W → Process W
  step m p = record p {
    world = (host.exec p.world).1;
    schema = (after_exec (host.exec p.world).0 (run_migration m p.schema) p.schema).1;
  }

  migrate_from-step :
      (m : Migration) (ms : List Migration) (p : Process W)
      → (migrate_from host (m ∷ ms) p).0 ≡ ok tt
      → (run_migration m p.schema ≡ ok (step m p).schema)
        × ((migrate_from host ms (step m p)).0 ≡ ok tt)
        × ((migrate_from host (m ∷ ms) p).1 ≡ (migrate_from host ms (step m p)).1)
  unfolding migrate_from
  migrate_from-step m ms p h =
      let d = (host.exec p.world).0 in
      let r = run_migration m p.schema in
      elim (Option-cases (after_exec d r p.schema).0) [
        | inr (e, failed) ↦ let no_success = rw (migrate_from, failed) at h in cc
        | inl good ↦ (
          after_exec-none d r p.schema good,
          rw (migrate_from, good) at h,
          rw (migrate_from, good) refl,
        )
      ]

  pub migrate_from-keeps :
      (ms : List Migration) (p : Process W)
      → KeepsTables p.schema (migrate_from host ms p).1.schema
        × ((migrate_from host ms p).1.effects ≡ p.effects)
  unfolding migrate_from
  migrate_from-keeps [] p = ((Keeps-refl p.schema.users, Keeps-refl p.schema.notifications), refl)
  migrate_from-keeps (m ∷ ms) p =
      let q = after_exec (host.exec p.world).0 (run_migration m p.schema) p.schema in
      let here : KeepsTables p.schema q.1 =
        after_exec-KeepsTables (host.exec p.world).0 (run_migration m p.schema) p.schema
          (run_migration-KeepsTables m p.schema) in
      let p1 : Process W = record p { world = (host.exec p.world).1; schema = q.1 } in
      elim (Option-cases q.0) [
        | inr (e, failed) ↦ rw (migrate_from, failed) (here, refl)
        | inl good ↦
            let (rest, same) = migrate_from-keeps ms p1 in
            rw (migrate_from, good)
              (
                (
                  Keeps-trans p.schema.users q.1.users _ here.0 rest.0,
                  Keeps-trans p.schema.notifications q.1.notifications _ here.1 rest.1,
                ),
                same,
              )
      ]

  -- Whatever fails, Migrate keeps the tables that exist, with their rows; if it succeeds, both
  -- tables exist.
  pub migrate-IsMigrated :
      (p : Process W)
      → KeepsTables p.schema (migrate host p).1.schema
        × ((migrate host p).0 ≡ ok tt → IsMigrated (migrate host p).1.schema)
  unfolding migrate
  migrate-IsMigrated p = (
    (migrate_from-keeps migrations p).0,
    λ h.
        let (first, rest, same) =
          migrate_from-step create_users_sql (create_notifications_sql ∷ []) p h in
        let p1 = step create_users_sql p in
        let (second, last, same1) = migrate_from-step create_notifications_sql [] p1 rest in
        let p2 = step create_notifications_sql p1 in
        let users : (us : List User) × (p1.schema.users ≡ some us) =
          let (us, made) = created-some p.schema.users in
          (us, ap (λ (x : Schema). x.users) (sym (ok-injective first)) ∙ made) in
        let kept : KeepsTables p1.schema p2.schema =
          run_migration-KeepsTables create_notifications_sql p1.schema p2.schema second in
        subst (λ (q : Process W). IsMigrated q.schema) (sym (same ∙ same1))
          (
            (users.0, Keeps-some p1.schema.users p2.schema.users users kept.0 ∙ users.1),
            create_notifications-some p1.schema p2.schema p1.schema.notifications refl second,
          ),
  )

  -- On a schema with both tables Migrate changes nothing: a second run, of the same process or of
  -- the other one, is harmless.
  pub migrate_again : (p : Process W) → IsMigrated p.schema → (migrate host p).1.schema ≡ p.schema
  unfolding migrate
  migrate_again p both =
      let after = (migrate_from host migrations p).1.schema in
      let kept : KeepsTables p.schema after = (migrate_from-keeps migrations p).0 in
      let same_users : after.users ≡ p.schema.users =
        Keeps-some p.schema.users after.users both.0 kept.0 in
      let same_notifications : after.notifications ≡ p.schema.notifications =
        Keeps-some p.schema.notifications after.notifications both.1 kept.1 in
      λ i. record { users = same_users i; notifications = same_notifications i }
