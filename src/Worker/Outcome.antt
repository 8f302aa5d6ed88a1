-- ===== src/Worker/Outcome.antt =====
-- What `handle` (internal/worker/pool.go) leaves in the tables.
use pulse_notify.Prelude.{
  ◌==◌, ℤ, ◌≡◌, refl, subst, ◌∙◌, true, Option, none, some, List, [], ◌∷◌, map, arith, not, select,
  All, Text,
}
use pulse_notify.Errors.{Error, ok, message}
use pulse_notify.Model.{
  Uuid, Instant, Notification, NotificationStatus, sent, failed, NotificationEvent,
}
use pulse_notify.External.{Delivery, delivered, refused, Message}
use pulse_notify.State.{Db, State}
use pulse_notify.Database.{fits_int4}
use pulse_notify.Repository.Notifications.{set_sent, set_failed, update_rows}
use pulse_notify.Worker.Pool.{Pool, commit, persist, handle, deliver_with_retry}
use pulse_notify.Worker.Order.{EndsWithCommit, deliver-db, handle-commits}

abbrev pub outcome_status : Option Error → NotificationStatus
outcome_status none = sent
outcome_status (some e) = failed

abbrev pub outcome_text : Option Error → Text
outcome_text none = []
outcome_text (some e) = message e

-- The row holds the result of a delivery.
pub record IsRecorded (attempts : ℤ) (e : Option Error) (n : Notification) : Type 0 where
  pub status : n.status ≡ outcome_status e
  pub attempts_made : n.attempts ≡ attempts
  pub error_text : n.last_error ≡ outcome_text e

abbrev pub others : Uuid → List Notification → List Notification
others id = select (λ (n : Notification). not (n.id == id))

abbrev pub ids : List Notification → List Uuid
ids = map (λ (n : Notification). n.id)

-- In the tables `after`, the rows are those of `before`, by their ids; the rows with the id hold
-- the result, and the others are as they were.
pub record Records (id : Uuid) (attempts : ℤ) (e : Option Error) (before after : Db) : Type 0 where
  pub recorded :
      All (IsRecorded attempts e) (select (λ (n : Notification). n.id == id) after.notifications)
  pub same_ids : ids after.notifications ≡ ids before.notifications
  pub untouched : others id after.notifications ≡ others id before.notifications
  pub same_users : after.users ≡ before.users

module _ (id : Uuid) (f : Notification → Notification)
    (same_id : (n : Notification) → (f n).id ≡ n.id) where
  update_rows-All :
      (P : Notification → Type 0)
      → ((n : Notification) → P (f n))
      → (ns : List Notification)
      → All P (select (λ (n : Notification). n.id == id) (update_rows id f ns))
  unfolding update_rows
  update_rows-All P good [] = tt
  update_rows-All P good (n ∷ ns) = ground (arith, same_id n, good n, update_rows-All P good ns)

  update_rows-ids : (ns : List Notification) → ids (update_rows id f ns) ≡ ids ns
  unfolding update_rows
  update_rows-ids [] = refl
  update_rows-ids (n ∷ ns) = ground (arith, same_id n, update_rows-ids ns)

  update_rows-others : (ns : List Notification) → others id (update_rows id f ns) ≡ others id ns
  unfolding update_rows
  update_rows-others [] = refl
  update_rows-others (n ∷ ns) = ground (arith, same_id n, update_rows-others ns)

-- The change of a row that a delivery's result makes.
abbrev pub set_result : ℤ → Option Error → Instant → Notification → Notification
set_result attempts none now n = set_sent attempts now n
set_result attempts (some e) now n = set_failed attempts (message e) now n

set_result-id :
    (attempts : ℤ) (e : Option Error) (now : Instant) (n : Notification)
    → (set_result attempts e now n).id ≡ n.id
set_result-id attempts none now n = refl
set_result-id attempts (some e) now n = refl

set_result-IsRecorded :
    (attempts : ℤ) (e : Option Error) (now : Instant) (n : Notification)
    → IsRecorded attempts e (set_result attempts e now n)
set_result-IsRecorded attempts none now n = record {
  status = refl;
  attempts_made = refl;
  error_text = refl;
}
set_result-IsRecorded attempts (some e) now n = record {
  status = refl;
  attempts_made = refl;
  error_text = refl;
}

pub set_result-Records :
    (id : Uuid) (attempts : ℤ) (e : Option Error) (now : Instant) (db : Db)
    → Records id attempts e db
        (record db { notifications = update_rows id (set_result attempts e now) db.notifications })
set_result-Records id attempts e now db =
    let same_id = set_result-id attempts e now in
    record {
      recorded =
          update_rows-All id (set_result attempts e now) same_id (IsRecorded attempts e)
            (set_result-IsRecorded attempts e now) db.notifications;
      same_ids = update_rows-ids id (set_result attempts e now) same_id db.notifications;
      untouched = update_rows-others id (set_result attempts e now) same_id db.notifications;
      same_users = refl;
    }

module _ {W : Type 0} (p : Pool W) (id : Uuid) (attempts : ℤ) (s : State W) where
  -- What the database server does with the statement of `persist`.
  abbrev pub fate : Delivery
  fate = (p.repo.statement s.world).0.delivery

  persist-Records :
      (e : Option Error)
      → fits_int4 attempts ≡ true
      → fate ≡ delivered
      → Records id attempts e s.db (persist p id attempts e s).db
  unfolding persist update_rows
  persist-Records none fits done =
      rw (done, persist, fits)
        (set_result-Records id attempts none (p.repo.statement s.world).0.now s.db)
  persist-Records (some e) fits done =
      rw (done, persist, fits)
        (set_result-Records id attempts (some e) (p.repo.statement s.world).0.now s.db)

  persist-refused :
      (e : Option Error) (x : Error) → fate ≡ refused x → (persist p id attempts e s).db ≡ s.db
  unfolding persist
  persist-refused none x lost = rw (lost, persist)
  persist-refused (some e) x lost = rw (lost, persist)

module _ {W : Type 0} (p : Pool W) (msg : Message) (s : State W) (evt : NotificationEvent)
    (id : Uuid) (good : p.codec.unmarshal msg.value ≡ ok evt)
    (parsed : p.uuid.parse evt.notification_id ≡ ok id) where
  abbrev delivery : (ℤ × Option Error) × State W
  delivery = deliver_with_retry p evt s

  -- For an event with a valid id, if the server carries the UPDATE out and answers, and the number
  -- of attempts fits the column: no row comes or goes, a row with the notification's id holds the
  -- status of the delivery (sent without an error, failed with one), its attempts and the error's
  -- text, and no other row changes.
  pub handle-Records :
      fits_int4 delivery.0.0 ≡ true
      → fate p id delivery.0.0 delivery.1 ≡ delivered
      → Records id delivery.0.0 delivery.0.1 s.db (handle p msg s).db
  unfolding handle commit
  handle-Records fits done =
      rw (good, handle, parsed)
        (subst
          (λ db.
            Records id delivery.0.0 delivery.0.1 db
              (persist p id delivery.0.0 delivery.0.1 delivery.1).db)
          (deliver-db p evt s)
          (persist-Records p id delivery.0.0 delivery.1 delivery.0.1 fits done))

  -- For an event with a valid id, if the server refuses the UPDATE, the result of the delivery is
  -- stored nowhere, and the offset is committed all the same.
  pub handle-unrecorded :
      (x : Error)
      → fate p id delivery.0.0 delivery.1 ≡ refused x
      → ((handle p msg s).db ≡ s.db) × EndsWithCommit msg (handle p msg s).calls
  unfolding handle commit
  handle-unrecorded x lost = (
    rw (good, handle, parsed)
        (persist-refused p id delivery.0.0 delivery.1 delivery.0.1 x lost ∙ deliver-db p evt s),
    (handle-commits p msg s).0,
  )
