-- ===== src/Worker/Writes.antt =====
-- What one step of a worker (Worker/Steps) does to the tables, and what the UPDATEs made so far say
-- of a row.
use pulse_notify.Prelude.{
  zero, suc, ◌==◌, ℤ, ◌≡◌, ◌≢◌, refl, sym, subst, ap, ◌∙◌, inl, inr, Bool, true, false, ◌&&◌,
  Bool-cases, Option, none, some, List, [], ◌∷◌, arith, if◌then◌else◌, select, find?, All,
}
use pulse_notify.Errors.{Error}
use pulse_notify.Model.{Uuid, Notification}
use pulse_notify.External.{Delivery, delivered, refused, unacknowledged, Message}
use pulse_notify.State.{Db, State}
use pulse_notify.Database.{fits_int4}
use pulse_notify.Repository.Notifications.{update_rows}
use pulse_notify.Worker.Pool.{Pool, persist}
use pulse_notify.Worker.Outcome.{
  IsRecorded, Records, ids, others, set_result, set_result-Records, fate,
}
use pulse_notify.Worker.Steps
use pulse_notify.Worker.Steps.{
  Phase, received, checking, attempting, backing_off, interrupted, ending, committing, finished,
  decoded, move,
}
use pulse_notify.Worker.System.{Update, note_update}

abbrev pub rows : Uuid → Db → List Notification
rows id db = select (λ (n : Notification). n.id == id) db.notifications

-- The server carried the statement out, whether or not its answer arrived.
abbrev lands : Delivery → Bool
lands delivered = true
lands (refused e) = false
lands (unacknowledged e) = true

abbrev pub carried : Update → Bool
carried u = fits_int4 u.attempts && lands u.delivery

-- The newest UPDATE of a notification that was carried out.
abbrev pub newest : Uuid → List Update → Option Update
newest id = find? (λ (u : Update). u.id == id && carried u)

-- What the rows with an id are, after that UPDATE.
abbrev pub Shows : Db → Uuid → Option Update → Db → Type 0
Shows before id none db = rows id db ≡ rows id before
Shows before id (some u) db = All (IsRecorded u.attempts u.error) (rows id db)

-- The tables are those of `before` with the UPDATEs made on them.
pub record Reflects (before : Db) (us : List Update) (db : Db) : Type 0 where
  pub shown : (id : Uuid) → Shows before id (newest id us) db
  pub same_ids : ids db.notifications ≡ ids before.notifications
  pub same_users : db.users ≡ before.users

rows-others :
    (id other : Uuid) (ns : List Notification)
    → id ≢ other
    → select (λ (n : Notification). n.id == other) (others id ns)
      ≡ select (λ (n : Notification). n.id == other) ns
rows-others id other [] h = refl
rows-others id other (n ∷ ns) h = ground (arith, rows-others id other ns h)

module _ {W : Type 0} (p : Pool W) where
  pub persist-db :
      (id : Uuid) (attempts : ℤ) (e : Option Error) (s : State W)
      → (persist p id attempts e s).db ≡ (
          if fits_int4 attempts && lands (fate p id attempts s)
          then record s.db {
            notifications =
                update_rows id
                  (set_result attempts e (p.repo.statement s.world).0.now)
                  s.db.notifications;
          }
          else s.db)
  unfolding persist
  persist-db id attempts none s = ground arith
  persist-db id attempts (some e) s = ground arith

Shows-same :
    (before : Db) (id : Uuid) (u : Option Update) (db after : Db)
    → rows id after ≡ rows id db
    → Shows before id u db
    → Shows before id u after
Shows-same before id none db after e h = e ∙ h
Shows-same before id (some u) db after e h = subst (All (IsRecorded u.attempts u.error)) (sym e) h

-- An UPDATE that was carried out is the newest of its notification, and of no other.
Reflects-carried :
    (before : Db) (us : List Update) (u : Update) (db after : Db)
    → carried u ≡ true
    → Records u.id u.attempts u.error db after
    → Reflects before us db
    → Reflects before (u ∷ us) after
Reflects-carried before us u db after done r h = record {
  shown = λ id. elim (Bool-cases (u.id == id)) [
    | inl same ↦
        let e : u.id ≡ id = ground arith in
        rw (same, done)
          (subst (λ i. All (IsRecorded u.attempts u.error) (rows i after)) e r.recorded)
    | inr other ↦
        let differ : u.id ≢ id = λ e. ground arith in
        rw other (
          Shows-same before id (newest id us) db after
            (sym (rows-others u.id id after.notifications differ)
              ∙ ap (select (λ (n : Notification). n.id == id)) r.untouched
              ∙ rows-others u.id id db.notifications differ)
            (h.shown id))
  ];
  same_ids = r.same_ids ∙ h.same_ids;
  same_users = r.same_users ∙ h.same_users;
}

Reflects-lost :
    (before : Db) (us : List Update) (u : Update) (db : Db)
    → carried u ≡ false
    → Reflects before us db
    → Reflects before (u ∷ us) db
Reflects-lost before us u db lost h = record {
  shown = λ id.
      let same : newest id (u ∷ us) ≡ newest id us = ground arith in
      subst (λ o. Shows before id o db) (sym same) (h.shown id);
  same_ids = h.same_ids;
  same_users = h.same_users;
}

module _ {W : Type 0} (p : Pool W) (before : Db) (us : List Update) (m : Message) where
  persist-Reflects :
      (id : Uuid) (attempts : ℤ) (e : Option Error) (s : State W)
      → Reflects before us s.db
      → Reflects before
          (note_update p m (Steps.delivered id attempts e) s us)
          (persist p id attempts e s).db
  persist-Reflects id attempts e s h =
      let kept = persist-db p id attempts e s in
      elim (Bool-cases (fits_int4 attempts && lands (fate p id attempts s))) [
        | inl done ↦
            rw (kept, done)
              (Reflects-carried before us _ s.db _ done
                (set_result-Records id attempts e (p.repo.statement s.world).0.now s.db) h)
        | inr lost ↦ rw (kept, lost) (Reflects-lost before us _ s.db lost h)
      ]

  -- One step of a worker keeps the tables those of the UPDATEs.
  pub move-Reflects :
      (ph : Phase) (s : State W)
      → Reflects before us s.db
      → Reflects before (note_update p m ph s us) (move p m ph s).1.db
  unfolding move
  move-Reflects received s h = h
  move-Reflects (checking id evt zero attempt last) s h = h
  move-Reflects (checking id evt (suc rounds) attempt last) s h = h
  move-Reflects (attempting id evt rounds attempt) s h = h
  move-Reflects (backing_off id evt rounds attempt x) s h = h
  move-Reflects (interrupted id attempt) s h = h
  move-Reflects (Steps.delivered id attempts e) s h = persist-Reflects id attempts e s h
  move-Reflects ending s h = h
  move-Reflects (committing detached) s h = h
  move-Reflects finished s h = h
