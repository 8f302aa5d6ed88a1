-- ===== src/Worker/Overflow.antt =====
-- A pool whose retry count is the largest int: maxRetries+1 overflows in deliverWithRetry
-- (internal/worker/pool.go).
use pulse_notify.Prelude.{
  ◌-◌, ◌^◌, ℤ, pos, negsuc, pos_part, wrap64, ◌+ℤ◌, ◌≡◌, refl, ap, ◌∙◌, none,
}
use pulse_notify.Errors.{ok}
use pulse_notify.Model.{Uuid, NotificationEvent}
use pulse_notify.External.{Message}
use pulse_notify.State.{State}
use pulse_notify.Worker.Pool.{
  Pool, bound, commit, handle_valid, handle, deliver_from, deliver_with_retry, persist,
}
use pulse_notify.Worker.Retry.{sends}
use pulse_notify.Worker.Order.{EndsWithCommit, handle-commits}
use pulse_notify.Worker.Writes.{persist-db}

bound_overflow :
    {W : Type 0} (p : Pool W) → p.max_retries ≡ pos (2 ^ 63 - 1) → bound p ≡ negsuc (2 ^ 63 - 1)
unfolding wrap64 ◌+ℤ◌
bound_overflow p h = rw h refl

no_rounds :
    {W : Type 0} (p : Pool W) (evt : NotificationEvent) (s : State W)
    → p.max_retries ≡ pos (2 ^ 63 - 1)
    → deliver_with_retry p evt s ≡ ((negsuc (2 ^ 63 - 1), none), s)
unfolding deliver_with_retry deliver_from
no_rounds p evt s h =
    ap (λ (b : ℤ). deliver_from p evt (pos_part b) 1 none s) (bound_overflow p h)
    ∙ ap (λ (b : ℤ). ((b, none), s)) (bound_overflow p h)

persist-sends :
    {W : Type 0} (p : Pool W) (id : Uuid) (attempts : ℤ) (s : State W)
    → sends (persist p id attempts none s).calls ≡ sends s.calls
unfolding persist
persist-sends p id attempts s = refl

-- With the largest int as its retry count the pool loses a notification: for a valid event handle
-- sends nothing and leaves the tables as they were, so the notification stays as it is, and it
-- commits the message, last.
pub handle-loses :
    {W : Type 0} (p : Pool W) (msg : Message) (s : State W) (evt : NotificationEvent) (id : Uuid)
    → p.max_retries ≡ pos (2 ^ 63 - 1)
    → p.codec.unmarshal msg.value ≡ ok evt
    → p.uuid.parse evt.notification_id ≡ ok id
    → (sends (handle p msg s).calls ≡ sends s.calls)
      × ((handle p msg s).db ≡ s.db)
      × EndsWithCommit msg (handle p msg s).calls
unfolding handle handle_valid commit
handle-loses p msg s evt id largest good parsed =
    let none_made = no_rounds p evt s largest in
    let lost = persist-db p id (negsuc (2 ^ 63 - 1)) none s in
    (
      rw (good, handle, parsed, handle_valid, none_made)
          (persist-sends p id (negsuc (2 ^ 63 - 1)) s),
      rw (good, handle, parsed, handle_valid, none_made) lost,
      (handle-commits p msg s).0,
    )
