-- ===== src/Worker/Dispatch.antt =====
-- Run and worker of internal/worker/pool.go: the dispatcher and the workers, as the steps that they
-- take in some order. A worker's step is its whole handling of a message, at whose end the offset is
-- committed (Worker/Order); the channel has no buffer, so a message passes when a worker is free.
use pulse_notify.Prelude.{ℕ, zero, suc, Option, none, some, List, [], ◌∷◌}
use pulse_notify.Errors.{Error}
use pulse_notify.External.{Message}

-- Where the dispatcher is: in Fetch or the pause after an error of it; offering a message to the
-- workers; or past its loop, with the channel closed.
pub data Dispatcher : Type 0 where
  fetching : Dispatcher
  offering : Message → Dispatcher
  closed : Dispatcher

pub record Run : Type 0 where
  pub dispatcher : Dispatcher
  -- the workers that wait for a message, and the messages that the others handle, newest first
  pub idle : ℕ
  pub busy : List Message
  -- the messages so far that were fetched, that were committed, and that nobody took at the end
  pub fetched : List Message
  pub committed : List Message
  pub dropped : List Message

pub data RunStep : Type 0 where
  -- Fetch returns a message, an error that the loop goes on after, or one that ends the loop
  fetches : Message → RunStep
  fetch_fails cancelled : RunStep
  -- `jobs <- msg`, or ctx.Done() in its place
  hands_over gives_up : RunStep
  -- the worker with this message in the list of busy ones is done with it
  finishes : ℕ → RunStep

unfoldable pub pick : ℕ → List Message → Option (Message × List Message)
pick n [] = none
pick zero (m ∷ ms) = some (m, ms)
pick (suc n) (m ∷ ms) = elim (pick n ms) [ none ↦ none | some (k, rest) ↦ some (k, m ∷ rest) ]

abbrev pub hand : Message → ℕ → Run → Option Run
hand m zero r = none
hand m (suc n) r = some (record r { dispatcher = fetching; idle = n; busy = m ∷ r.busy })

abbrev pub on_dispatcher : RunStep → Dispatcher → Run → Option Run
on_dispatcher (fetches m) fetching r =
    some (record r { dispatcher = offering m; fetched = m ∷ r.fetched })
on_dispatcher fetch_fails fetching r = some (record r { dispatcher = fetching })
on_dispatcher cancelled fetching r = some (record r { dispatcher = closed })
on_dispatcher hands_over (offering m) r = hand m r.idle r
on_dispatcher gives_up (offering m) r =
    some (record r { dispatcher = closed; dropped = m ∷ r.dropped })
on_dispatcher _ _ r = none

abbrev pub finish : Option (Message × List Message) → Run → Option Run
finish none r = none
finish (some (m, rest)) r =
    some (record r { idle = suc r.idle; busy = rest; committed = m ∷ r.committed })

-- One step, if it is possible.
unfoldable pub run_step : RunStep → Run → Option Run
unfolding pick
run_step (finishes n) r = finish (pick n r.busy) r
run_step (fetches m) r = on_dispatcher (fetches m) r.dispatcher r
run_step fetch_fails r = on_dispatcher fetch_fails r.dispatcher r
run_step cancelled r = on_dispatcher cancelled r.dispatcher r
run_step hands_over r = on_dispatcher hands_over r.dispatcher r
run_step gives_up r = on_dispatcher gives_up r.dispatcher r

unfoldable pub run : List RunStep → Run → Option Run
unfolding run_step
run [] r = some r
run (e ∷ es) r = elim (run_step e r) [ none ↦ none | some r1 ↦ run es r1 ]

-- The pool when Run has started its workers.
abbrev pub run_start : ℕ → Run
run_start concurrency = record {
  dispatcher = fetching;
  idle = concurrency;
  busy = [];
  fetched = [];
  committed = [];
  dropped = [];
}

-- What Run has returned: it returns nil, once the dispatcher has left its loop and no worker handles
-- a message.
abbrev pub result : Dispatcher → List Message → Option (Option Error)
result closed [] = some none
result closed (m ∷ ms) = none
result fetching ms = none
result (offering m) ms = none

abbrev pub returned : Run → Option (Option Error)
returned r = result r.dispatcher r.busy
