-- ===== src/Worker/Settled.antt =====
-- The whole of Run (internal/worker/pool.go) at its end, for every order in which the dispatcher and
-- the workers took their turns on the shared state.
use pulse_notify.Prelude.{
  ◌++◌, ℕ, ℤ, ◌+◌, ◌==◌, ◌≤◌, ◌<◌, ◌≡◌, refl, ap, subst, ◌⊎◌, inl, inr, Bool, true, false,
  Bool-cases, Option, none, some, Option-cases, List, [], ◌∷◌, arith, length, select, All, All-imp,
}
use pulse_notify.Errors.{Error}
use pulse_notify.Model.{Uuid, Notification, sent, failed}
use pulse_notify.External.{Message}
use pulse_notify.State.{State}
use pulse_notify.Worker.Pool.{Pool}
use pulse_notify.Worker.Dispatch.{returned}
use pulse_notify.Worker.Conservation.{count, run-Accounts}
use pulse_notify.Worker.Returned.{all_placed}
use pulse_notify.Worker.Outcome.{IsRecorded}
use pulse_notify.Worker.System.{Job, Update, System, Turn, turns, system_start, messages, view}
use pulse_notify.Worker.Simulation.{turns-run}
use pulse_notify.Worker.Commits.{commits}
use pulse_notify.Worker.Writes.{Reflects, Shows, rows, carried, newest}
use pulse_notify.Worker.Tally.{written, notification_of, is_event, weigh}
use pulse_notify.Worker.Trace.{turns-IsTraced}

-- What a pool that started in the state `before` leaves when Run has returned.
pub record IsSettled {W : Type 0} (p : Pool W) (before : State W) (y : System W) : Type 0 where
  pub placed :
      (test : Message → Bool) → count test y.fetched ≡ count test y.committed + count test y.dropped
  pub few : length y.dropped ≤ 1
  pub written_once :
      (test : Message → Bool)
      → count test (written y.updates) ≡ count test (select (is_event p) y.committed)
  pub updates_named : All (λ (u : Update). notification_of p u.message ≡ some u.id) y.updates
  pub reflects : Reflects before.db y.updates y.shared.db
  pub called : commits y.shared.calls ≡ y.committed ++ commits before.calls

no_jobs : (js : List Job) → messages js ≡ [] → js ≡ []
no_jobs [] h = refl
no_jobs (j ∷ js) h = cc

-- When Run has returned, after any order of turns of the dispatcher and of n workers: the messages
-- that CommitMessages was called with are those that count as committed; each message was committed
-- as often as it was fetched, but for at most one that nobody took; each event that was committed
-- had an UPDATE of its own, as often as it was committed, for the notification that it names, and
-- there was no other; and the rows of a notification show the newest of its UPDATEs that the server
-- carried out, and are as at the start if there is none.
pub pool_settles :
    {W : Type 0} (p : Pool W) (n : ℕ) (s : State W) (ts : List (Turn W)) (y : System W)
    → turns p ts (system_start n s) ≡ some y
    → returned (view y) ≡ some none
    → IsSettled p s y
pool_settles p n s ts y h done =
    let (es, steps) = turns-run p ts (system_start n s) y h in
    let (placed, idle, few) = all_placed n (view y) done (run-Accounts n es (view y) steps) in
    let traced = turns-IsTraced p n s ts y h in
    let empty = no_jobs y.jobs idle in
    record {
      placed = placed;
      few = few;
      written_once = λ test. omega (arith, traced.balanced test, ap (weigh p test) empty);
      updates_named = traced.updates_named;
      reflects = traced.reflects;
      called = traced.called;
    }

module _ {W : Type 0} (p : Pool W) (id : Uuid) where
  abbrev pub same_id : Option Uuid → Bool
  same_id none = false
  same_id (some j) = j == id

  -- Whether a message is an event of the notification.
  abbrev pub is_for : Message → Bool
  is_for m = same_id (notification_of p m)

  newest-some :
      (us : List Update)
      → All (λ (u : Update). notification_of p u.message ≡ some u.id) us
      → All (λ (u : Update). carried u ≡ true) us
      → 0 < count is_for (written us)
      → (u : Update) × (newest id us ≡ some u)
  newest-some [] named done h = absurd (omega arith)
  newest-some (u ∷ us) named done h = elim (Bool-cases (u.id == id)) [
    | inl same ↦ (u, rw (same, done.0) refl)
    | inr other ↦
        let fewer : is_for u.message ≡ false = rw named.0 other in
        let (v, found) = newest-some us named.1 done.1 (rw fewer at h) in (v, rw other found)
  ]

  count-select : (ms : List Message) → count is_for (select (is_event p) ms) ≡ count is_for ms
  count-select [] = refl
  count-select (m ∷ ms) = elim (Option-cases (notification_of p m)) [
    | inl unnamed ↦ rw unnamed (count-select ms)
    | inr (j, is) ↦ rw is (ground (arith, count-select ms))
  ]

-- A row whose notification was delivered, or given up.
abbrev pub IsTerminal : Notification → Type 0
IsTerminal n = ((n.status ≡ sent) × (n.last_error ≡ [])) ⊎ (n.status ≡ failed)

IsRecorded-IsTerminal :
    (attempts : ℤ) (e : Option Error) (n : Notification) → IsRecorded attempts e n → IsTerminal n
IsRecorded-IsTerminal attempts none n r = inl (r.status, r.error_text)
IsRecorded-IsTerminal attempts (some e) n r = inr r.status

-- When Run has returned and the server carried every UPDATE out, no notification whose event was
-- committed is pending: its rows are sent, with no error, or failed.
pub pool_settles-IsTerminal :
    {W : Type 0} (p : Pool W) (n : ℕ) (s : State W) (ts : List (Turn W)) (y : System W) (id : Uuid)
    → turns p ts (system_start n s) ≡ some y
    → returned (view y) ≡ some none
    → All (λ (u : Update). carried u ≡ true) y.updates
    → 0 < count (is_for p id) y.committed
    → All IsTerminal (rows id y.shared.db)
pool_settles-IsTerminal p n s ts y id h done all taken =
    let t = pool_settles p n s ts y h done in
    let (u, found) =
      newest-some p id y.updates t.updates_named all
        (omega (arith, t.written_once (is_for p id), count-select p id y.committed)) in
    All-imp (IsRecorded-IsTerminal u.attempts u.error) (rows id y.shared.db)
      (subst (λ o. Shows s.db id o y.shared.db) found (t.reflects.shown id))
