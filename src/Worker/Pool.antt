-- ===== src/Worker/Pool.antt =====
-- internal/worker/pool.go: the pool's fields, one delivery with its retries, and one message. The
-- logger's calls have no effect on the rest and are left out.
use pulse_notify.Prelude.{
  ℕ, zero, suc, ◌-◌, ◌^◌, ℤ, pos, pos_part, ltb_ℤ, leb_ℤ, ◌+ℤ◌, ◌*ℤ◌, wrap64, Bool, true, false,
  Option, none, some, if◌then◌else◌, ◌∷◌,
}
use pulse_notify.Errors.{Error, Result, ok, err, message}
use pulse_notify.Model.{Uuid, Duration, NotificationEvent}
use pulse_notify.External.{Postgres, UuidPackage, Codec, Message}
use pulse_notify.State.{State, sending, waited, committing}
use pulse_notify.Worker.Notifier.{Context, Notifier, millisecond}
use pulse_notify.Repository.Notifications.{mark_sent, mark_failed}

-- (c *Consumer) Fetch and Commit of internal/events/consumer.go: the reader's calls, handed on.
-- The flag of `commit` says that its context is detached from the worker's.
pub record Consumer (W : Type 0) : Type 0 where
  pub fetch : W → Result Message × W
  pub commit : Bool → Message → W → Option Error × W

pub record Pool (W : Type 0) : Type 0 where
  pub consumer : Consumer W
  pub repo : Postgres W
  pub notifier : Notifier W
  pub concurrency : ℤ
  pub max_retries : ℤ
  -- the context of Run, and the packages that `handle` calls
  pub ctx : Context W
  pub uuid : UuidPackage
  pub codec : Codec NotificationEvent

-- if concurrency < 1 { concurrency = 1 }
abbrev pub pool_size : ℤ → ℤ
pool_size concurrency = if ltb_ℤ concurrency (pos 1) then pos 1 else concurrency

-- NewPool: at least one worker.
unfoldable pub new_pool :
    {W : Type 0}
    → Consumer W
    → Postgres W
    → Notifier W
    → ℤ
    → ℤ
    → Context W
    → UuidPackage
    → Codec NotificationEvent
    → Pool W
new_pool consumer repo notifier concurrency max_retries ctx uuid codec = record {
  consumer = consumer;
  repo = repo;
  notifier = notifier;
  concurrency = pool_size concurrency;
  max_retries = max_retries;
  ctx = ctx;
  uuid = uuid;
  codec = codec;
}

-- time.Duration(1<<uint(attempt-1)) * 100 * time.Millisecond, each step in int64
unfoldable pub backoff : ℕ → Duration
unfolding wrap64 ◌*ℤ◌
backoff attempt = wrap64 (wrap64 (wrap64 (pos (2 ^ (attempt - 1))) *ℤ pos 100) *ℤ millisecond)

module _ {W : Type 0} (p : Pool W) where
  -- p.notifier.Send(ctx, evt)
  abbrev pub send : NotificationEvent → State W → Option Error × State W
  send evt s =
      let (e, w) = p.notifier evt s.world in
      (e, record s { world = w; calls = sending evt e ∷ s.calls })

  -- select { case <-ctx.Done(): … case <-time.After(d): … }
  abbrev pub pause : Duration → State W → Bool × State W
  pause d s =
      let (done, w) = p.ctx.wait d s.world in
      (done, record s { world = w; calls = waited d done ∷ s.calls })

  -- p.maxRetries+1
  abbrev pub bound : ℤ
  bound = wrap64 (p.max_retries +ℤ pos 1)

  -- The loop of deliverWithRetry: `rounds` are left, `attempt` is next, `last` is lastErr.
  unfoldable pub deliver_from :
      NotificationEvent → ℕ → ℕ → Option Error → State W → (ℤ × Option Error) × State W
  deliver_from evt zero attempt last s = ((bound, last), s)
  deliver_from evt (suc rounds) attempt last s = elim (p.ctx.error s.world) [
    | some e ↦ ((pos (attempt - 1), some e), s)
    | none ↦
        let (e, s1) = send evt s in
        elim e [
          | none ↦ ((pos attempt, none), s1)
          | some x ↦ elim (leb_ℤ (pos attempt) p.max_retries) [
            | true ↦
                let (done, s2) = pause (backoff attempt) s1 in
                elim done [
                  | true ↦ ((pos attempt, p.ctx.error s2.world), s2)
                  | false ↦ deliver_from evt rounds (suc attempt) (some x) s2
                ]
            | false ↦ deliver_from evt rounds (suc attempt) (some x) s1
          ]
        ]
  ]

  -- deliverWithRetry: attempts 1 to p.maxRetries+1, none if that is not positive.
  unfoldable pub deliver_with_retry : NotificationEvent → State W → (ℤ × Option Error) × State W
  unfolding deliver_from
  deliver_with_retry evt s = deliver_from evt (pos_part bound) 1 none s

  abbrev pub is_some : Option Error → Bool
  is_some none = false
  is_some (some e) = true

  -- commit: in a context of its own once the worker's is cancelled.
  unfoldable pub commit : Message → State W → State W
  commit msg s =
      let detached = is_some (p.ctx.error s.world) in
      let (e, w) = p.consumer.commit detached msg s.world in
      record s { world = w; calls = committing detached msg e ∷ s.calls }

  -- The branches of `handle` on the delivery's error; an error of the repository is only logged.
  unfoldable pub persist : Uuid → ℤ → Option Error → State W → State W
  unfolding mark_sent mark_failed
  persist id attempts none s = (mark_sent p.repo id attempts s).1
  persist id attempts (some e) s = (mark_failed p.repo id attempts (message e) s).1

  unfoldable pub handle_valid : Uuid → NotificationEvent → Message → State W → State W
  handle_valid id evt msg s =
      let ((attempts, e), s1) = deliver_with_retry evt s in commit msg (persist id attempts e s1)

  -- handle
  unfoldable pub handle : Message → State W → State W
  unfolding handle_valid
  handle msg s = elim (p.codec.unmarshal msg.value) [
    | err e ↦ commit msg s
    | ok evt ↦ elim (p.uuid.parse evt.notification_id) [
      | err e ↦ commit msg s
      | ok id ↦ handle_valid id evt msg s
    ]
  ]
