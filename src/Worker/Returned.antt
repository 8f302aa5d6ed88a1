-- ===== src/Worker/Returned.antt =====
-- Where the messages are once Run (internal/worker/pool.go) has returned.
use pulse_notify.Prelude.{
  ℕ, ◌≤◌, ◌+◌, ◌≡◌, refl, ap, subst, Bool, length, none, some, List, [], ◌∷◌, arith,
}
use pulse_notify.External.{Message}
use pulse_notify.Worker.Dispatch.{Run, Dispatcher, fetching, offering, closed, result, returned}
use pulse_notify.Worker.Conservation.{count, count_offered, Leftover, Accounts}

result-none :
    (d : Dispatcher) (ms : List Message) → result d ms ≡ some none → (d ≡ closed) × (ms ≡ [])
result-none closed [] h = (refl, refl)
result-none closed (m ∷ ms) h = cc
result-none fetching ms h = cc
result-none (offering m) ms h = cc

-- None is being handled: each was committed or, one at most, dropped.
pub all_placed :
    (n : ℕ) (r : Run)
    → returned r ≡ some none
    → Accounts n r
    → ((test : Message → Bool)
        → count test r.fetched ≡ count test r.committed + count test r.dropped)
      × (r.busy ≡ [])
      × (length r.dropped ≤ 1)
all_placed n r done a =
    let (ended, idle) = result-none r.dispatcher r.busy done in
    (
      λ test. omega (arith, a.placed test, ap (count test) idle, ap (count_offered test) ended),
      idle,
      subst (λ d. Leftover d r.dropped) ended a.leftover,
    )
