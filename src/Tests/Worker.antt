-- ===== src/Tests/Worker.antt =====
-- The worker's theorems at concrete inputs.
use pulse_notify.Prelude.{ℕ, ◌-◌, wrap64, ◌+ℤ◌, ◌^◌, pos, ◌≡◌, refl, true, arith, none}
use pulse_notify.Errors.{sentinel, canceled}
use pulse_notify.Database.{fits_int4}
use pulse_notify.Worker.Pool.{deliver_with_retry, handle}
use pulse_notify.Worker.Retry.{Delivered, DoneHasError, deliver_with_retry-Delivered, sends}
use pulse_notify.Worker.Overflow.{handle-loses}
use pulse_notify.Worker.Order.{commits, EndsWithCommit, handle-commits}
use pulse_notify.Worker.Outcome.{Records, handle-Records}
use pulse_notify.Tests.World.{ctx, mail, message, pg, pool, start}

ctx_has_error : DoneHasError ctx
ctx_has_error d w h = (sentinel canceled, ground arith)

deliver_with_retry-Delivered_example :
    Delivered (pool pg 3) mail 0 4 start.db (deliver_with_retry (pool pg 3) mail start)
deliver_with_retry-Delivered_example =
    deliver_with_retry-Delivered (pool pg 3) mail 3 start refl (omega arith) ctx_has_error

-- The provider is busy twice, so the third attempt is the one that succeeds.
third_time : (deliver_with_retry (pool pg 3) mail start).0 ≡ (pos 3, none)
unfolding deliver_with_retry wrap64 ◌+ℤ◌
third_time = refl

abbrev most : ℕ
most = 2 ^ 63 - 1

handle-loses_example :
    (sends (handle (pool pg most) message start).calls ≡ 0)
    × ((handle (pool pg most) message start).db ≡ start.db)
    × EndsWithCommit message (handle (pool pg most) message start).calls
handle-loses_example = handle-loses (pool pg most) message start mail 7 refl refl refl

handle-commits_example :
    EndsWithCommit message (handle (pool pg 3) message start).calls
    × (commits (handle (pool pg 3) message start).calls ≡ 1)
handle-commits_example = handle-commits (pool pg 3) message start

attempts_fit : fits_int4 (deliver_with_retry (pool pg 3) mail start).0.0 ≡ true
unfolding deliver_with_retry wrap64 ◌+ℤ◌
attempts_fit = refl

handle-Records_example :
    Records 7
      (deliver_with_retry (pool pg 3) mail start).0.0
      (deliver_with_retry (pool pg 3) mail start).0.1
      start.db
      (handle (pool pg 3) message start).db
handle-Records_example = handle-Records (pool pg 3) message start mail 7 refl refl attempts_fit refl
