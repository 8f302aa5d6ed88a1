-- ===== src/Tests/Service.antt =====
-- The theorems on notifications and cached lists at concrete inputs.
use pulse_notify.Prelude.{
  pos, ◌≡◌, refl, ◌⊎◌, true, none, some, List, [], ◌∷◌, arith, any, Text, codes, text_eq,
  text_eq_iff, text_eq_refl, trim_space, to_lower, signed_decimal, decimal,
}
use pulse_notify.Errors.{Result, ok, err}
use pulse_notify.Model.{Notification, NotificationResponse, notification_to_response}
use pulse_notify.State.{State}
use pulse_notify.Database.{notification_violation}
use pulse_notify.Repository.Notifications
use pulse_notify.Cache.{delete}
use pulse_notify.Service.Notifications.{
  NotificationService, canonical, allowed_channels, list_key, enqueue, invalidate_user_cache,
  list_for_user,
}
use pulse_notify.Service.Enqueue.{AddsPending, IsEnqueued, enqueue-MayAdd, enqueue-IsEnqueued}
use pulse_notify.Service.Lists.{ListCache, list_for_user-stale}
use pulse_notify.Tests.World.{Outside, clock, db, down, pg, put, redis, row, start, tick, uuid}

abbrev decode : Text → Result (List NotificationResponse)
decode [] = err down
decode (c ∷ s) = ok []

abbrev pub service : NotificationService Outside
service = record {
  repo = pg;
  producer = λ evt w. (none, tick w);
  cache = some redis;
  uuid = uuid;
  clock = clock;
  list_codec = record { marshal = λ items. ok (codes "[]"); unmarshal = decode };
  fold = λ c. c;
}

-- A state in which the lists of limits 20 and 30 are cached.
abbrev pub warm : State Outside
warm = record start {
  world = record {
    clock = 20;
    table =
        put (list_key uuid 1 (pos 20)) (codes "[]")
          (put (list_key uuid 1 (pos 30)) (codes "[]") (λ k. none));
  };
}

abbrev pub sms : Text
sms = codes " SMS "

abbrev pub enqueued : Result NotificationResponse × State Outside
enqueued = enqueue service 1 sms (codes "5550100") [] (codes "Hello") warm

abbrev pub answer : NotificationResponse
answer =
    notification_to_response uuid.to_text
      (record (row 20 20) { channel = codes "sms"; recipient = codes "5550100"; subject = [] })

enqueue-MayAdd_example :
    (enqueued.1.db ≡ db)
    ⊎ ((n : Notification) × AddsPending 1 (canonical service.fold sms) n db enqueued.1.db
        × (any (text_eq n.channel) allowed_channels ≡ true))
enqueue-MayAdd_example = enqueue-MayAdd service 1 sms (codes "5550100") [] (codes "Hello") warm

accepted : enqueued ≡ (ok answer, enqueued.1)
unfolding enqueue notification_to_response text_eq to_lower trim_space Notifications.create
    notification_violation
accepted = refl

enqueue-IsEnqueued_example :
    IsEnqueued service 1 (canonical service.fold sms) warm answer enqueued.1
enqueue-IsEnqueued_example =
    enqueue-IsEnqueued service 1 sms (codes "5550100") [] (codes "Hello") warm answer enqueued.1
      accepted

list_laws : ListCache redis
list_laws = record {
  view = λ w. w.table;
  get_value = λ k v w h. ground arith;
  del_value = λ k w h. rw (text_eq_refl k) refl;
  del_other = λ k j w ne. ground (arith, text_eq_iff j k);
}

cached_30 : warm.world.table (list_key uuid 1 (pos 30)) ≡ some (codes "[]")
unfolding text_eq signed_decimal decimal
cached_30 = refl

still_cached :
    (redis.get (list_key uuid 1 (pos 30)) (invalidate_user_cache service 1 warm).world).0
    ≡ ok (codes "[]")
unfolding text_eq signed_decimal decimal invalidate_user_cache delete
still_cached = refl

list_for_user-stale_example :
    (list_for_user service 1 (pos 30) (invalidate_user_cache service 1 warm)).0 ≡ ok []
unfolding list_laws
list_for_user-stale_example =
    list_for_user-stale service redis list_laws refl 1 30 warm (codes "[]") (codes "[]") []
      (omega arith) (omega arith) refl cached_30 refl still_cached
