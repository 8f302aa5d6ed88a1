-- ===== src/Flow.antt =====
-- The two processes together: a notification that the service enqueues (internal/service/notification.go)
-- and its event in the pool (internal/worker/pool.go).
use pulse_notify.Prelude.{
  sym, ◌≡◌, refl, ap, ◌∙◌, subst, inl, inr, true, none, some, Option, Option-cases, ℤ, pos, Text,
  find?, ◌==◌, arith, List, [], ◌∷◌, select, All,
}
use pulse_notify.Errors.{Error, ok, Result-cases}
use pulse_notify.Model.{Uuid, Instant, Notification, NotificationEvent, NotificationResponse}
use pulse_notify.External.{
  UuidPackage, Message, delivered, Codec, KafkaWriter, NotificationProducer,
}
use pulse_notify.Events.{publish}
use pulse_notify.State.{State, Db}
use pulse_notify.Database.{fits_int4}
use pulse_notify.Service.Notifications.{
  NotificationService, event_of, enqueue, canonical, invalidate_user_cache,
}
use pulse_notify.Repository.Notifications
use pulse_notify.Service.Enqueue.{AddsPending, enqueue-calls}
use pulse_notify.Worker.Pool.{Pool, deliver_with_retry, handle}
use pulse_notify.Worker.Outcome.{IsRecorded, ids, fate, handle-Records}

-- A row with the id is in the tables, and holds the result of a delivery.
abbrev pub Finished : Uuid → ℤ → Option Error → Db → Type 0
Finished id attempts e db =
    (n : Notification) × (find? (λ (m : Notification). m.id == id) db.notifications ≡ some n)
    × IsRecorded attempts e n

first_row_lem :
    (id : Uuid) (attempts : ℤ) (e : Option Error) (ns : List Notification) (rest : List Uuid)
    → ids ns ≡ id ∷ rest
    → All (IsRecorded attempts e) (select (λ (m : Notification). m.id == id) ns)
    → (n : Notification) × (find? (λ (m : Notification). m.id == id) ns ≡ some n)
      × IsRecorded attempts e n
first_row_lem id attempts e [] rest listed all = cc
first_row_lem id attempts e (n ∷ ns) rest listed all =
    let same : n.id ≡ id = cc in (n, ground arith, ground arith)

module _ {W : Type 0} (p : Pool W) (uuid : UuidPackage) (same_uuid : p.uuid ≡ uuid)
    (row : Notification) (instant : Instant) where
  abbrev evt : NotificationEvent
  evt = event_of uuid row instant

  evt-id : p.uuid.parse evt.notification_id ≡ ok row.id
  evt-id =
      ap (λ (u : UuidPackage). u.parse evt.notification_id) same_uuid ∙ uuid.parse-to_text row.id

  -- A message that decodes to the event of the first row, handled on the tables with this row.
  handle-Finished :
      (user_id : Uuid) (channel : Text) (before : Db) (msg : Message) (t : State W)
      → AddsPending user_id channel row before t.db
      → p.codec.unmarshal msg.value ≡ ok evt
      → fits_int4 (deliver_with_retry p evt t).0.0 ≡ true
      → fate p row.id (deliver_with_retry p evt t).0.0 (deliver_with_retry p evt t).1 ≡ delivered
      → Finished row.id
          (deliver_with_retry p evt t).0.0
          (deliver_with_retry p evt t).0.1
          (handle p msg t).db
  handle-Finished user_id channel before msg t adds decoded fits done =
      let kept = handle-Records p msg t evt row.id decoded evt-id fits done in
      first_row_lem row.id _ _ (handle p msg t).db.notifications (ids before.notifications)
        (kept.same_ids ∙ ap (λ (d : Db). ids d.notifications) adds.added) kept.recorded

-- encoding/json reads an event back from its own text.
abbrev pub ReadsBack : Codec NotificationEvent → Type 0
ReadsBack codec =
    (evt : NotificationEvent) (text : Text)
    → codec.marshal evt ≡ ok text
    → codec.unmarshal text ≡ ok evt

-- What the broker keeps of a message, and the offset that it gives it.
abbrev pub at_offset : ℤ → Message → Message
at_offset offset m = record m { offset = offset }

-- Publish reports no error only if the writer has taken the event's text under the key of its user.
publish-writes :
    {W : Type 0} (codec : Codec NotificationEvent) (writer : KafkaWriter W)
    (evt : NotificationEvent) (w : W)
    → (publish codec writer evt w).0 ≡ none
    → (m : Message) × ((writer m w).0 ≡ none)
      × (m.key ≡ evt.user_id)
      × (codec.marshal evt ≡ ok m.value)
      × ((publish codec writer evt w).1 ≡ (writer m w).1)
unfolding publish
publish-writes codec writer evt w h = elim (Result-cases (codec.marshal evt)) [
  | inr (e, bad) ↦ absurd (ground arith)
  | inl (text, good) ↦
      let m : Message = record { key = evt.user_id; value = text; offset = pos 0 } in
      elim (Option-cases (writer m w).0) [
        | inr (e, refused) ↦ absurd (ground arith)
        | inl taken ↦ (m, taken, refl, good, ground arith)
      ]
]

-- The message of a notification was taken by the writer in the world `w` that Enqueue had come to, the
-- cached lists of the user were invalidated next, and a pool that handles the message at an offset
-- in the state `t` leaves the notification as its delivery `d` ended.
pub record IsPassedOn {W : Type 0} (svc : NotificationService W) (p : Pool W)
    (writer : KafkaWriter W) (user_id : Uuid) (row : Notification) (inserted s' : State W)
    (offset : ℤ) (t : State W) (d : (ℤ × Option Error) × State W) : Type 0 where
  pub msg : Message
  pub taken : (writer msg (svc.clock inserted.world).1).0 ≡ none
  pub key : msg.key ≡ svc.uuid.to_text user_id
  pub after :
      s'
      ≡ invalidate_user_cache svc user_id
          (record inserted { world = (writer msg (svc.clock inserted.world).1).1 })
  pub handled : Finished row.id d.0.0 d.0.1 (handle p (at_offset offset msg) t).db

-- The event that Enqueue publishes of a row that it has inserted.
abbrev pub event_after :
    {W : Type 0} → NotificationService W → Notification → State W → NotificationEvent
event_after svc row inserted = event_of svc.uuid row (svc.clock inserted.world).0

-- An Enqueue that succeeds over Publish, whose INSERT gave this row, has had one message taken by the
-- writer, under the key of the user, at the reading of the clock after the INSERT, and ends in the
-- state after that call and the invalidation of the user's lists. Whatever offset the broker gives
-- the message, a pool that starts from the same tables and handles it leaves the notification sent,
-- or failed with the error's text, as its delivery ended, with the attempts made: if both use one
-- UUID package and one codec, which reads back what it wrote, and the server carries the UPDATE out.
pub enqueue-publish-handle :
    {W : Type 0} (svc : NotificationService W) (p : Pool W) (writer : KafkaWriter W)
    (user_id : Uuid) (channel recipient subject body : Text) (r : NotificationResponse)
    (row : Notification) (s inserted s' : State W) (offset : ℤ) (t : State W)
    → p.uuid ≡ svc.uuid
    → svc.producer ≡ publish p.codec writer
    → ReadsBack p.codec
    → enqueue svc user_id channel recipient subject body s ≡ (ok r, s')
    → Notifications.create svc.repo user_id (canonical svc.fold channel) recipient subject body s
      ≡ (ok row, inserted)
    → t.db ≡ s'.db
    → let d = deliver_with_retry p (event_after svc row inserted) t in
      fits_int4 d.0.0 ≡ true
      → fate p row.id d.0.0 d.1 ≡ delivered
      → IsPassedOn svc p writer user_id row inserted s' offset t d
enqueue-publish-handle {W = W} svc p writer user_id channel recipient subject body r row s inserted
      s' offset t same_uuid through json done made same fits carried =
    let (instant, w) = svc.clock inserted.world in
    let evt = event_after svc row inserted in
    let (published, after, adds) =
      enqueue-calls svc user_id channel recipient subject body s r s' inserted row done made in
    let (m, taken, key, written, next) =
      publish-writes p.codec writer evt w
        (subst (λ (f : NotificationProducer W). (f evt w).0 ≡ none) through published) in
    record {
      msg = m;
      taken = taken;
      key = key ∙ ap svc.uuid.to_text adds.owner;
      after =
          after
          ∙ ap (λ (v : W). invalidate_user_cache svc user_id (record inserted { world = v }))
              (ap (λ (f : NotificationProducer W). (f evt w).1) through ∙ next);
      handled =
          handle-Finished p svc.uuid same_uuid row instant user_id (canonical svc.fold channel) s.db
            (at_offset offset m) t
            (subst (AddsPending user_id (canonical svc.fold channel) row s.db) (sym same) adds)
            (json evt m.value written) fits carried;
    }
