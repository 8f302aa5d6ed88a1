-- ===== src/Tests/System.antt =====
-- The theorems on the pool with its shared state at concrete inputs.
use pulse_notify.Prelude.{
  ◌<◌, wrap64, ◌+ℤ◌, pos, true, ◌≡◌, refl, none, some, List, [], ◌∷◌, arith, ltb, All, codes,
  if◌then◌else◌,
}
use pulse_notify.Errors.{ok, err, sentinel, canceled, errors_is, other}
use pulse_notify.Model.{Notification, sent, failed}
use pulse_notify.Database.{fits_int4}
use pulse_notify.State.{State}
use pulse_notify.Worker.Pool.{Pool, handle, persist, deliver_with_retry}
use pulse_notify.Worker.Conservation.{count}
use pulse_notify.Worker.Dispatch.{RunStep, run, run_start, returned}
use pulse_notify.Worker.Steps.{received, finished, move}
use pulse_notify.Worker.System.{
  System, Turn, dispatches, hands_over, works, turns, system_start, view, Update,
}
use pulse_notify.Worker.Alone.{LeadsTo, moves-handle}
use pulse_notify.Worker.Simulation.{turns-run}
use pulse_notify.Worker.Writes.{carried, rows}
use pulse_notify.Worker.Trace.{IsTraced, turns-IsTraced}
use pulse_notify.Worker.Settled.{
  IsSettled, pool_settles, is_for, IsTerminal, pool_settles-IsTerminal,
}
use pulse_notify.Worker.Redelivery.{row_of, handle-demotes}
use pulse_notify.Worker.Overtaking.{turns_overtake}
use pulse_notify.Worker.Commits.{commits}
use pulse_notify.Tests.World.{
  Outside, tick, consumer, db, mail, message, empty_message, pg, pool, row, start,
}

-- A broker that has the message until the clock 2, so that it is delivered twice.
abbrev pub twice : Pool Outside
twice = record (pool pg 3) {
  consumer = record consumer {
    fetch = λ w. (if ltb w.clock 2 then ok message else err (sentinel canceled), tick w);
  };
}

-- A broker that has two messages of one partition, one after the other.
abbrev pair : Pool Outside
pair = record (pool pg 3) {
  consumer = record consumer {
    fetch = λ w. (ok (if ltb w.clock 1 then message else empty_message), tick w);
  };
}

turns_overtake_example :
    (ts : List (Turn Outside)) × (y : System Outside) × (turns pair ts (system_start 2 start)
      ≡ some y)
    × (y.fetched ≡ empty_message ∷ message ∷ [])
    × (y.jobs ≡ (message, received) ∷ [])
    × (y.shared ≡ handle pair empty_message (record start { world = tick (tick start.world) }))
    × (commits y.shared.calls ≡ empty_message ∷ commits start.calls)
turns_overtake_example =
    turns_overtake pair start message empty_message (tick start.world) (tick (tick start.world)) 0
      refl refl

-- Two workers, whose steps on the two messages alternate, up to the end of Run.
abbrev pub schedule : List (Turn Outside)
schedule =
    dispatches
    ∷ hands_over
    ∷ dispatches
    ∷ hands_over
    ∷ works 1
    ∷ works 0
    ∷ works 1
    ∷ works 0
    ∷ works 1
    ∷ works 0
    ∷ dispatches
    ∷ works 1
    ∷ dispatches
    ∷ works 0
    ∷ works 0
    ∷ works 1
    ∷ works 1
    ∷ works 0
    ∷ []

end : (y : System Outside) × (turns twice schedule (system_start 2 start) ≡ some y)
unfolding turns move persist wrap64 ◌+ℤ◌ errors_is
end = (_, refl)

stopped : returned (view end.0) ≡ some none
unfolding end
stopped = refl

turns-IsTraced_example : IsTraced twice start end.0
turns-IsTraced_example = turns-IsTraced twice 2 start schedule end.0 end.1

turns-run_example : (es : List RunStep) × (run es (run_start 2) ≡ some (view end.0))
turns-run_example = turns-run twice schedule (system_start 2 start) end.0 end.1

pool_settles_example : IsSettled twice start end.0
pool_settles_example = pool_settles twice 2 start schedule end.0 end.1 stopped

each_carried : All (λ (u : Update). carried u ≡ true) end.0.updates
unfolding end
each_carried = (refl, (refl, tt))

both_committed : 0 < count (is_for twice 7) end.0.committed
unfolding end
both_committed = omega arith

pool_settles-IsTerminal_example : All IsTerminal (rows 7 end.0.shared.db)
pool_settles-IsTerminal_example =
    pool_settles-IsTerminal twice 2 start schedule end.0 7 end.1 stopped each_carried both_committed

moves-handle_example :
    LeadsTo (pool pg 3) message (received, start) (finished, handle (pool pg 3) message start)
moves-handle_example = moves-handle (pool pg 3) message start

-- The notification was sent at the instant 4.
abbrev sent_row : Notification
sent_row = record (row 7 3) { status = sent; attempts = pos 1; sent_at = some 4 }

abbrev sent_before : State Outside
sent_before = record start { db = record db { notifications = sent_row ∷ row 8 5 ∷ [] } }

lost : (deliver_with_retry (pool pg 0) mail sent_before).0.1 ≡ some (other (codes "busy"))
unfolding deliver_with_retry wrap64 ◌+ℤ◌
lost = refl

lost_fits : fits_int4 (deliver_with_retry (pool pg 0) mail sent_before).0.0 ≡ true
unfolding deliver_with_retry wrap64 ◌+ℤ◌
lost_fits = refl

handle-demotes_example :
    (m : Notification) × (row_of 7 (handle (pool pg 0) message sent_before).db ≡ some m)
    × (m.status ≡ failed)
    × (m.sent_at ≡ some 4)
handle-demotes_example =
    handle-demotes (pool pg 0) message sent_before mail 7 refl refl sent_row 4
      (other (codes "busy")) refl refl refl lost lost_fits refl
