-- ===== src/Tests/Flow.antt =====
-- A notification from its request to its delivery.
use pulse_notify.Prelude.{
  ◌≡◌, refl, inl, inr, Bool, true, ◌&&◌, Bool-cases, none, [], codes, text_eq, text_eq_iff,
  trim_space, to_lower, wrap64, ◌+ℤ◌, pos, if◌then◌else◌, ◌==◌, arith,
}
use pulse_notify.Errors.{Result, ok, err}
use pulse_notify.Model.{
  Notification, NotificationEvent, NotificationResponse, notification_to_response,
}
use pulse_notify.External.{Codec, KafkaWriter}
use pulse_notify.State.{State}
use pulse_notify.Database.{fits_int4, notification_violation}
use pulse_notify.Repository.Notifications
use pulse_notify.Cache.{delete}
use pulse_notify.Events.{publish}
use pulse_notify.Service.Notifications.{
  NotificationService, canonical, enqueue, event_of, invalidate_user_cache,
}
use pulse_notify.Worker.Pool.{Pool, deliver_with_retry}
use pulse_notify.Flow.{ReadsBack, IsPassedOn, event_after, enqueue-publish-handle}
use pulse_notify.Tests.World.{Outside, down, pg, pool, row, start, tick, uuid}
use pulse_notify.Tests.Service.{answer, service, sms, warm}

abbrev sms_row : Notification
sms_row = record (row 20 20) { channel = codes "sms"; recipient = codes "5550100"; subject = [] }

abbrev sms_event : NotificationEvent
sms_event = event_of uuid sms_row 21

abbrev is_sms : NotificationEvent → Bool
is_sms e =
    text_eq e.notification_id sms_event.notification_id
    && text_eq e.user_id sms_event.user_id
    && text_eq e.channel sms_event.channel
    && text_eq e.recipient sms_event.recipient
    && text_eq e.subject sms_event.subject
    && text_eq e.body sms_event.body
    && e.enqueued_at == sms_event.enqueued_at

-- A codec for this one event.
abbrev codec : Codec NotificationEvent
codec = record {
  marshal = λ e. if is_sms e then ok (codes "sms") else err down;
  unmarshal = λ text. ok sms_event;
}

codec_reads : ReadsBack codec
codec_reads e text h = elim (Bool-cases (is_sms e)) [
  | inl same ↦
      let equal : e ≡ sms_event = ground (
        arith,
        text_eq_iff e.notification_id sms_event.notification_id,
        text_eq_iff e.user_id sms_event.user_id,
        text_eq_iff e.channel sms_event.channel,
        text_eq_iff e.recipient sms_event.recipient,
        text_eq_iff e.subject sms_event.subject,
        text_eq_iff e.body sms_event.body,
      ) in
      rw equal refl
  | inr other ↦ absurd (ground arith)
]

abbrev writer : KafkaWriter Outside
writer m w = (none, tick w)

abbrev sms_service : NotificationService Outside
sms_service = record service { producer = publish codec writer }

abbrev enqueued : Result NotificationResponse × State Outside
enqueued = enqueue sms_service 1 sms (codes "5550100") [] (codes "Hello") warm

sms_enqueued : enqueued ≡ (ok answer, enqueued.1)
unfolding enqueue notification_to_response text_eq to_lower trim_space Notifications.create
    notification_violation invalidate_user_cache delete publish
sms_enqueued = refl

abbrev after_insert : State Outside
after_insert = (Notifications.create pg 1 (codes "sms") (codes "5550100") [] (codes "Hello") warm).1

sms_stored :
    Notifications.create pg 1 (canonical service.fold sms) (codes "5550100") [] (codes "Hello") warm
    ≡ (ok sms_row, after_insert)
unfolding Notifications.create notification_violation to_lower trim_space
sms_stored = refl

abbrev sms_pool : Pool Outside
sms_pool = record (pool pg 3) { codec = codec }

abbrev later : State Outside
later = record start { db = enqueued.1.db }

sms_attempts_fit : fits_int4 (deliver_with_retry sms_pool sms_event later).0.0 ≡ true
unfolding deliver_with_retry wrap64 ◌+ℤ◌
sms_attempts_fit = refl

sms_clock : event_after sms_service sms_row after_insert ≡ sms_event
unfolding Notifications.create
sms_clock = refl

enqueue-publish-handle_example :
    IsPassedOn sms_service sms_pool writer 1 sms_row after_insert enqueued.1
      (pos 5)
      later
      (deliver_with_retry sms_pool (event_after sms_service sms_row after_insert) later)
enqueue-publish-handle_example =
    enqueue-publish-handle sms_service sms_pool writer 1 sms (codes "5550100") [] (codes "Hello")
      answer sms_row warm after_insert enqueued.1 (pos 5) later refl refl codec_reads sms_enqueued
      sms_stored refl (rw sms_clock sms_attempts_fit) refl
