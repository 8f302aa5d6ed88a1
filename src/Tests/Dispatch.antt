-- ===== src/Tests/Dispatch.antt =====
-- The theorems on the dispatcher and the workers at concrete inputs.
use pulse_notify.Prelude.{◌≡◌, refl, List, [], ◌∷◌, some}
use pulse_notify.Worker.Dispatch.{
  Run, RunStep, closed, fetches, fetch_fails, hands_over, gives_up, finishes, run, run_start, pick,
}
use pulse_notify.Tests.World.{empty_message, message}

-- Two messages are handled, the later one is committed, and a third is dropped at the end.
abbrev shutdown : List RunStep
shutdown =
    fetches message
    ∷ hands_over
    ∷ fetch_fails
    ∷ fetches empty_message
    ∷ hands_over
    ∷ finishes 0
    ∷ fetches message
    ∷ gives_up
    ∷ []

abbrev at_end : Run
at_end = record {
  dispatcher = closed;
  idle = 1;
  busy = message ∷ [];
  fetched = message ∷ empty_message ∷ message ∷ [];
  committed = empty_message ∷ [];
  dropped = message ∷ [];
}

shuts_down : run shutdown (run_start 2) ≡ some at_end
unfolding run pick
shuts_down = refl
