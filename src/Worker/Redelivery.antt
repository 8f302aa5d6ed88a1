-- ===== src/Worker/Redelivery.antt =====
-- A message that Kafka delivers again, after its notification was sent: `handle` and MarkFailed of
-- internal/worker/pool.go and internal/repository/notification.go do not look at the status.
use pulse_notify.Prelude.{
  ◌==◌, ◌≡◌, refl, inl, inr, true, Bool-cases, Option, some, List, [], ◌∷◌, arith, find?,
}
use pulse_notify.Errors.{Error, ok, message}
use pulse_notify.Model.{Uuid, Instant, Notification, NotificationEvent, sent, failed}
use pulse_notify.External.{delivered, Message}
use pulse_notify.State.{Db, State}
use pulse_notify.Database.{fits_int4}
use pulse_notify.Repository.Notifications.{set_failed, update_rows}
use pulse_notify.Worker.Pool.{Pool, commit, handle_valid, handle, deliver_with_retry}
use pulse_notify.Worker.Order.{deliver-db}
use pulse_notify.Worker.Outcome.{fate}
use pulse_notify.Worker.Writes.{persist-db}

abbrev pub row_of : Uuid → Db → Option Notification
row_of id db = find? (λ (n : Notification). n.id == id) db.notifications

find?-update_rows :
    (id : Uuid) (f : Notification → Notification) (ns : List Notification) (n : Notification)
    → ((m : Notification) → (f m).id ≡ m.id)
    → find? (λ (m : Notification). m.id == id) ns ≡ some n
    → find? (λ (m : Notification). m.id == id) (update_rows id f ns) ≡ some (f n)
unfolding update_rows
find?-update_rows id f [] n same h = cc
find?-update_rows id f (m ∷ ns) n same h = elim (Bool-cases (m.id == id)) [
  | inl here ↦
      let e : m ≡ n = ground arith in
      let named : (f m).id ≡ id = ground (arith, same m) in rw (here, update_rows) (ground arith)
  | inr other ↦ rw (other, update_rows, other) (find?-update_rows id f ns n same (ground arith))
]

module _ {W : Type 0} (p : Pool W) (msg : Message) (s : State W) (evt : NotificationEvent)
    (id : Uuid) (good : p.codec.unmarshal msg.value ≡ ok evt)
    (parsed : p.uuid.parse evt.notification_id ≡ ok id) where
  -- A notification that is sent, whose event is handled once more by a delivery that fails, goes
  -- from sent to failed, and keeps the instant at which it was sent: if the event and its id are
  -- valid, the attempts fit their column, and the server carries the UPDATE out.
  pub handle-demotes :
      (n : Notification) (at : Instant) (e : Error)
      → row_of id s.db ≡ some n
      → n.status ≡ sent
      → n.sent_at ≡ some at
      → (deliver_with_retry p evt s).0.1 ≡ some e
      → fits_int4 (deliver_with_retry p evt s).0.0 ≡ true
      → fate p id (deliver_with_retry p evt s).0.0 (deliver_with_retry p evt s).1 ≡ delivered
      → (m : Notification) × (row_of id (handle p msg s).db ≡ some m)
        × (m.status ≡ failed)
        × (m.sent_at ≡ some at)
  unfolding handle handle_valid commit
  handle-demotes n at e there was_sent sent_then lost fits done =
      let r = deliver_with_retry p evt s in
      let now = (p.repo.statement r.1.world).0.now in
      let db = persist-db p id r.0.0 (some e) r.1 in
      (
        set_failed r.0.0 (message e) now n,
        rw (good, handle, parsed, handle_valid, lost)
            (rw (db, fits, done, deliver-db p evt s)
              (find?-update_rows id (set_failed r.0.0 (message e) now) s.db.notifications n
                (λ m. refl) there)),
        refl,
        sent_then,
      )
