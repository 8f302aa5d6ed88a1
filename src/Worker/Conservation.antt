-- ===== src/Worker/Conservation.antt =====
-- What becomes of the messages that Run (internal/worker/pool.go) fetches, in every order of steps.
use pulse_notify.Prelude.{
  ℕ, zero, suc, ◌+◌, ◌≤◌, ◌≡◌, refl, ap, subst, ◌∙◌, inl, inr, Bool, Option, some, Option-cases,
  List, [], ◌∷◌, arith, length, if◌then◌else◌,
}
use pulse_notify.External.{Message}
use pulse_notify.Worker.Dispatch.{
  Dispatcher, fetching, offering, closed, Run, RunStep, fetches, fetch_fails, cancelled, hands_over,
  gives_up, finishes, pick, hand, on_dispatcher, finish, run_step, run, run_start,
}

abbrev pub count : (Message → Bool) → List Message → ℕ
count test [] = 0
count test (m ∷ ms) = if test m then suc (count test ms) else count test ms

abbrev pub count_offered : (Message → Bool) → Dispatcher → ℕ
count_offered test (offering m) = count test (m ∷ [])
count_offered test _ = 0

abbrev pub Leftover : Dispatcher → List Message → Type 0
Leftover closed ms = length ms ≤ 1
Leftover _ ms = ms ≡ []

-- Every message that was fetched is in one place, whatever the order of the steps.
pub record Accounts (concurrency : ℕ) (r : Run) : Type 0 where
  pub placed :
      (test : Message → Bool)
      → count test r.fetched
        ≡ count test r.committed
          + count test r.busy
          + count_offered test r.dispatcher
          + count test r.dropped
  pub workers : r.idle + length r.busy ≡ concurrency
  pub leftover : Leftover r.dispatcher r.dropped

some_of : {x y : Run} → Option.some x ≡ some y → x ≡ y
some_of e = cc

pair_of : {A B : Type 0} {x y : A × B} → Option.some x ≡ some y → x ≡ y
pair_of e = cc

pick-count :
    (test : Message → Bool) (n : ℕ) (ms : List Message) (m : Message) (rest : List Message)
    → pick n ms ≡ some (m, rest)
    → count test ms ≡ count test (m ∷ rest)
unfolding pick
pick-count test n [] m rest h = cc
pick-count test zero (k ∷ ms) m rest h =
    ap (λ (p : Message × List Message). count test (p.0 ∷ p.1)) (pair_of h)
pick-count test (suc n) (k ∷ ms) m rest h = elim (Option-cases (pick n ms)) [
  | inl empty ↦ absurd (ground arith)
  | inr ((j, others), found) ↦
      let moved : count test (k ∷ ms) ≡ count test (j ∷ k ∷ others) =
        ground (arith, pick-count test n ms j others found) in
      let taken : Option.some (j, k ∷ others) ≡ some (m, rest) = ground arith in
      moved ∙ ap (λ (p : Message × List Message). count test (p.0 ∷ p.1)) (pair_of taken)
]

pick-length :
    (n : ℕ) (ms : List Message) (m : Message) (rest : List Message)
    → pick n ms ≡ some (m, rest)
    → length ms ≡ suc (length rest)
unfolding pick
pick-length n [] m rest h = cc
pick-length zero (k ∷ ms) m rest h = ground arith
pick-length (suc n) (k ∷ ms) m rest h = elim (Option-cases (pick n ms)) [
  | inl empty ↦ absurd (ground arith)
  | inr ((j, others), found) ↦ ground (arith, pick-length n ms j others found)
]

hand-Accounts :
    {concurrency : ℕ} (m : Message) (r r1 : Run) (n : ℕ)
    → Accounts concurrency (record r { dispatcher = offering m; idle = n })
    → hand m n r ≡ some r1
    → Accounts concurrency r1
hand-Accounts m r r1 zero a h = cc
hand-Accounts {concurrency} m r r1 (suc n) a h = subst (Accounts concurrency) (some_of h) (record {
  placed = λ test. ground (arith, a.placed test);
  workers = omega (arith, a.workers);
  leftover = a.leftover;
})

on_dispatcher-Accounts :
    {concurrency : ℕ} (e : RunStep) (d : Dispatcher) (r r1 : Run)
    → Accounts concurrency (record r { dispatcher = d })
    → on_dispatcher e d r ≡ some r1
    → Accounts concurrency r1
on_dispatcher-Accounts {concurrency} (fetches m) fetching r r1 a h =
    subst (Accounts concurrency) (some_of h) (record {
      placed = λ test. ground (arith, a.placed test);
      workers = a.workers;
      leftover = a.leftover;
    })
on_dispatcher-Accounts {concurrency} fetch_fails fetching r r1 a h =
    subst (Accounts concurrency) (some_of h) a
on_dispatcher-Accounts {concurrency} cancelled fetching r r1 a h =
    subst (Accounts concurrency) (some_of h)
      (record { placed = a.placed; workers = a.workers; leftover = ground arith })
on_dispatcher-Accounts hands_over (offering m) r r1 a h = hand-Accounts m r r1 r.idle a h
on_dispatcher-Accounts {concurrency} gives_up (offering m) r r1 a h =
    subst (Accounts concurrency) (some_of h) (record {
      placed = λ test. ground (arith, a.placed test);
      workers = a.workers;
      leftover = ground arith;
    })
on_dispatcher-Accounts _ _ r r1 a h = cc

finish-Accounts :
    {concurrency : ℕ} (r r1 : Run) (m : Message) (rest : List Message) (n : ℕ)
    → Accounts concurrency r
    → pick n r.busy ≡ some (m, rest)
    → finish (some (m, rest)) r ≡ some r1
    → Accounts concurrency r1
finish-Accounts {concurrency} r r1 m rest n a picked h =
    subst (Accounts concurrency) (some_of h) (record {
      placed = λ test. ground (arith, a.placed test, pick-count test n r.busy m rest picked);
      workers = omega (arith, a.workers, pick-length n r.busy m rest picked);
      leftover = a.leftover;
    })

run_step-Accounts :
    {concurrency : ℕ} (e : RunStep) (r r1 : Run)
    → Accounts concurrency r
    → run_step e r ≡ some r1
    → Accounts concurrency r1
unfolding run_step
run_step-Accounts (finishes n) r r1 a h = elim (Option-cases (pick n r.busy)) [
  | inl empty ↦ absurd (ground arith)
  | inr ((m, rest), picked) ↦ finish-Accounts r r1 m rest n a picked (ground arith)
]
run_step-Accounts (fetches m) r r1 a h = on_dispatcher-Accounts (fetches m) r.dispatcher r r1 a h
run_step-Accounts fetch_fails r r1 a h = on_dispatcher-Accounts fetch_fails r.dispatcher r r1 a h
run_step-Accounts cancelled r r1 a h = on_dispatcher-Accounts cancelled r.dispatcher r r1 a h
run_step-Accounts hands_over r r1 a h = on_dispatcher-Accounts hands_over r.dispatcher r r1 a h
run_step-Accounts gives_up r r1 a h = on_dispatcher-Accounts gives_up r.dispatcher r r1 a h

run-keeps :
    {concurrency : ℕ} (es : List RunStep) (r r1 : Run)
    → Accounts concurrency r
    → run es r ≡ some r1
    → Accounts concurrency r1
unfolding run
run-keeps {concurrency} [] r r1 a h = subst (Accounts concurrency) (some_of h) a
run-keeps (e ∷ es) r r1 a h = elim (Option-cases (run_step e r)) [
  | inl stuck ↦ absurd (ground arith)
  | inr (r2, stepped) ↦ run-keeps es r2 r1 (run_step-Accounts e r r2 a stepped) (ground arith)
]

-- In whatever order the dispatcher and the workers take their steps: each message that was fetched
-- is committed, being handled, on offer, or dropped (as often as it was fetched); the workers that
-- wait and those that handle a message are as many as were started; and no message is dropped
-- before the loop has ended, and at most one when it ends.
pub run-Accounts :
    (concurrency : ℕ) (es : List RunStep) (r : Run)
    → run es (run_start concurrency) ≡ some r
    → Accounts concurrency r
run-Accounts concurrency es r h =
    run-keeps es (run_start concurrency) r
      (record { placed = λ test. refl; workers = omega arith; leftover = refl }) h
