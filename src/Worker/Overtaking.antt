-- ===== src/Worker/Overtaking.antt =====
-- A message that is committed before one that was fetched earlier (internal/worker/pool.go).
use pulse_notify.Prelude.{
  ℕ, zero, suc, ◌≡◌, refl, sym, ap, ◌∙◌, subst, inl, inr, true, false, Bool-cases, some, List, [],
  ◌∷◌, ◌++◌,
}
use pulse_notify.Errors.{ok}
use pulse_notify.External.{Message}
use pulse_notify.State.{State}
use pulse_notify.Worker.Pool.{Pool, handle}
use pulse_notify.Worker.Steps.{Phase, received, finished, move, moves}
use pulse_notify.Worker.Alone.{moves-handle}
use pulse_notify.Worker.System.{
  Job, System, Turn, dispatches, hands_over, works, fetching, is_finished, proceed, note_update,
  turn, turns, system_start, offering,
}
use pulse_notify.Worker.Commits.{commits}
use pulse_notify.Worker.Trace.{turns-IsTraced}

finished_lem : (ph : Phase) → is_finished ph ≡ true → ph ≡ finished
finished_lem finished h = refl
finished_lem _ h = cc

module _ {W : Type 0} (p : Pool W) (m : Message) where
  moves-finished : (k : ℕ) (s : State W) → moves p k m (finished, s) ≡ (finished, s)
  unfolding moves move
  moves-finished zero s = refl
  moves-finished (suc k) s = moves-finished k s

  -- The turns of the worker with the first job alone, up to the end of the job.
  record Completes (js : List Job) (s' : State W) (x : System W) : Type 0 where
    ts : List (Turn W)
    y : System W
    steps : turns p ts x ≡ some y
    shared : y.shared ≡ s'
    jobs : y.jobs ≡ js
    fetched : y.fetched ≡ x.fetched
    committed : y.committed ≡ m ∷ x.committed

  -- The system after a turn of the worker with the first job.
  abbrev after : Phase → System W → System W
  after ph x = proceed p 0 m (move p m ph x.shared).0 (record x {
    shared = (move p m ph x.shared).1;
    updates = note_update p m ph x.shared x.updates;
  })

  turn-after :
      (ph : Phase) (js : List Job) (x : System W)
      → x.jobs ≡ (m, ph) ∷ js
      → turn p (works 0) x ≡ some (after ph x)
  unfolding turn
  turn-after ph js x there = rw there refl

  turns-cons :
      (t : Turn W) (ts : List (Turn W)) (x y z : System W)
      → turn p t x ≡ some y
      → turns p ts y ≡ some z
      → turns p (t ∷ ts) x ≡ some z
  unfolding turns
  turns-cons t ts x y z e h = rw (turns, e) h

  turns-after :
      (ph : Phase) (js : List Job) (ts : List (Turn W)) (x y z : System W)
      → x.jobs ≡ (m, ph) ∷ js
      → after ph x ≡ y
      → turns p ts y ≡ some z
      → turns p (works 0 ∷ ts) x ≡ some z
  turns-after ph js ts x y z there e h =
      turns-cons (works 0) ts x y z (turn-after ph js x there ∙ ap some e) h

  -- The dispatcher fetches a message and hands it to a worker that waits.
  turns-taken :
      (ts : List (Turn W)) (x z : System W) (n : ℕ) (w : W)
      → x.dispatcher ≡ fetching
      → x.idle ≡ suc n
      → p.consumer.fetch x.shared.world ≡ (ok m, w)
      → turns p ts (record x {
        shared = record x.shared { world = w };
        dispatcher = fetching;
        idle = n;
        jobs = (m, received) ∷ x.jobs;
        fetched = m ∷ x.fetched;
      })
        ≡ some z
      → turns p (dispatches ∷ hands_over ∷ ts) x ≡ some z
  unfolding turn
  turns-taken ts x z n w here waits got h =
      turns-cons dispatches (hands_over ∷ ts) x
        (record x {
          shared = record x.shared { world = w };
          dispatcher = offering m;
          fetched = m ∷ x.fetched;
        })
        z (rw (here, got) refl) (turns-cons hands_over ts _ _ z (rw waits refl) h)

  completes :
      (k : ℕ) (ph : Phase) (js : List Job) (s' : State W) (x : System W)
      → x.jobs ≡ (m, ph) ∷ js
      → is_finished ph ≡ false
      → moves p k m (ph, x.shared) ≡ (finished, s')
      → Completes js s' x
  unfolding moves turns
  completes zero ph js s' x there busy done =
      let over : is_finished ph ≡ true = ap (λ q. is_finished q.0) done in cc
  completes (suc k) ph js s' x there busy done =
      let next = (move p m ph x.shared).0 in
      let s1 = (move p m ph x.shared).1 in
      let us = note_update p m ph x.shared x.updates in
      elim (Bool-cases (is_finished next)) [
        | inl over ↦
            let stays =
              subst (λ q. moves p k m (q, s1) ≡ (finished, s')) (finished_lem next over) done in
            let y = record x {
              shared = s1;
              updates = us;
              idle = suc x.idle;
              jobs = js;
              committed = m ∷ x.committed;
            } in
            record {
              ts = works 0 ∷ [];
              y = y;
              steps = turns-after ph js [] x y y there (rw (over, there) refl) refl;
              shared = ap (λ q. q.1) (sym (moves-finished k s1) ∙ stays);
              jobs = refl;
              fetched = refl;
              committed = refl;
            }
        | inr more ↦
            let y = record x { shared = s1; updates = us; jobs = (m, next) ∷ js } in
            let t = completes k next js s' y refl more done in
            record {
              ts = works 0 ∷ t.ts;
              y = t.y;
              steps = turns-after ph js t.ts x y t.y there (rw (more, there) refl) t.steps;
              shared = t.shared;
              jobs = t.jobs;
              fetched = t.fetched;
              committed = t.committed;
            }
      ]

-- A pool starts with two workers at least, and the broker gives it one message and then another:
-- there is an order of turns after which CommitMessages has been called with the second, and with
-- no other since the start, while a worker has the first before it, fetched and not begun; and the
-- state is the one that `handle` leaves for the second message.
pub turns_overtake :
    {W : Type 0} (p : Pool W) (s : State W) (m1 m2 : Message) (w1 w2 : W) (n : ℕ)
    → p.consumer.fetch s.world ≡ (ok m1, w1)
    → p.consumer.fetch w1 ≡ (ok m2, w2)
    → (ts : List (Turn W)) × (y : System W) × (turns p ts (system_start (suc (suc n)) s) ≡ some y)
      × (y.fetched ≡ m2 ∷ m1 ∷ [])
      × (y.jobs ≡ (m1, received) ∷ [])
      × (y.shared ≡ handle p m2 (record s { world = w2 }))
      × (commits y.shared.calls ≡ m2 ∷ commits s.calls)
turns_overtake p s m1 m2 w1 w2 n got1 got2 =
    let x = record (system_start n (record s { world = w2 })) {
      jobs = (m2, received) ∷ (m1, received) ∷ [];
      fetched = m2 ∷ m1 ∷ [];
    } in
    let (k, alone) = moves-handle p m2 x.shared in
    let t =
      completes p m2 k received ((m1, received) ∷ []) (handle p m2 x.shared) x refl refl alone in
    let steps =
      turns-taken p m1 _ (system_start (suc (suc n)) s) t.y (suc n) w1 refl refl got1
        (turns-taken p m2 t.ts _ t.y n w2 refl refl got2 t.steps) in
    let traced = turns-IsTraced p (suc (suc n)) s _ t.y steps in
    (
      dispatches ∷ hands_over ∷ dispatches ∷ hands_over ∷ t.ts,
      t.y,
      steps,
      t.fetched,
      t.jobs,
      t.shared,
      traced.called ∙ ap (λ ms. ms ++ commits s.calls) t.committed,
    )
