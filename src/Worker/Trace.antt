-- ===== src/Worker/Trace.antt =====
-- The pool on its shared state (Worker/System), whatever the order of the turns: what the tables
-- hold, and which messages are committed.
use pulse_notify.Prelude.{
  ℕ, zero, suc, ◌+◌, ◌≡◌, refl, ap, ◌∙◌, ◌++◌, false, subst, inl, inr, Bool, true, Bool-cases,
  Option, none, some, Option-cases, List, [], ◌∷◌, arith, select, All, get_elem?, set, remove_at,
}
use pulse_notify.Errors.{Error, Result-cases}
use pulse_notify.External.{Message}
use pulse_notify.State.{Db, State}
use pulse_notify.Worker.Pool.{Pool}
use pulse_notify.Worker.Conservation.{count}
use pulse_notify.Worker.Steps.{Phase, delivered, finished, move}
use pulse_notify.Worker.System.{
  Loop, fetching, fetch_failed, retrying, offering, closed, Job, Update, System, Turn, outside,
  dispatches, hands_over, gives_up, works, is_finished, dispatch, hand_over, give_up, note_update,
  proceed, work_on, turn, turns, system_start,
}
use pulse_notify.Worker.Commits.{commits, commits_after, move-commits}
use pulse_notify.Worker.Writes.{Reflects, move-Reflects}
use pulse_notify.Worker.Tally.{
  written, notification_of, is_event, IsNamed, weight, weigh, weigh-set, weigh-remove_at,
  move-Tallied,
}

All-set {ℓ κ} :
    {A : Type ℓ} (P : A → Type κ) (xs : List A) (n : ℕ) (x : A)
    → P x
    → All P xs
    → All P (set xs n x)
All-set P [] n x h all = tt
All-set P (y ∷ ys) zero x h all = (h, all.1)
All-set P (y ∷ ys) (suc n) x h all = (all.0, All-set P ys n x h all.1)

All-remove_at {ℓ κ} :
    {A : Type ℓ} (P : A → Type κ) (xs : List A) (n : ℕ) → All P xs → All P (remove_at xs n)
All-remove_at P [] n all = tt
All-remove_at P (y ∷ ys) zero all = all.1
All-remove_at P (y ∷ ys) (suc n) all = (all.0, All-remove_at P ys n all.1)

All-get {ℓ κ} :
    {A : Type ℓ} (P : A → Type κ) (xs : List A) (n : ℕ) (x : A)
    → All P xs
    → get_elem? xs n ≡ some x
    → P x
All-get P [] n x all h = cc
All-get P (y ∷ ys) zero x all h = let e : y ≡ x = cc in subst P e all.0
All-get P (y ∷ ys) (suc n) x all h = All-get P ys n x all.1 h

-- Of a pool that started in the state `before`: each worker works on the notification of its
-- message; the tables are those of the UPDATEs made, each for the notification of its message;
-- these are, one for one, the events that are committed and those that are about to be; and the
-- messages that count as committed are those that CommitMessages was called with, in its order.
pub record Traces {W : Type 0} (p : Pool W) (before : State W) (jobs : List Job)
    (updates : List Update) (committed : List Message) (db : Db) (calls : List Message)
    : Type 0 where
  pub jobs_named : All (λ (j : Job). IsNamed p j.0 j.1) jobs
  pub updates_named : All (λ (u : Update). notification_of p u.message ≡ some u.id) updates
  pub reflects : Reflects before.db updates db
  pub unfinished : All (λ (j : Job). is_finished j.1 ≡ false) jobs
  pub called : calls ≡ committed ++ commits before.calls
  pub balanced :
      (test : Message → Bool)
      → count test (select (is_event p) committed) + weigh p test jobs
        ≡ count test (written updates)

abbrev pub IsTraced : {W : Type 0} → Pool W → State W → System W → Type 0
IsTraced p before x =
    Traces p before x.jobs x.updates x.committed x.shared.db (commits x.shared.calls)

module _ {W : Type 0} (p : Pool W) (before : State W) where
  that : (y z : System W) → IsTraced p before y → some y ≡ some z → IsTraced p before z
  that y z h e = let same : y ≡ z = cc in subst (IsTraced p before) same h

  dispatch-IsTraced :
      (d : Loop) (x y : System W)
      → IsTraced p before x
      → dispatch p d x ≡ some y
      → IsTraced p before y
  dispatch-IsTraced fetching x y h e =
      that _ y
        (elim (Result-cases (p.consumer.fetch x.shared.world).0) [
          | inl (m, got) ↦ rw got h
          | inr (x1, failed) ↦ rw failed h
        ])
        e
  dispatch-IsTraced (fetch_failed x1) x y h e = that _ y h e
  dispatch-IsTraced retrying x y h e = that _ y h e
  dispatch-IsTraced (offering m) x y h e = cc
  dispatch-IsTraced closed x y h e = cc

  hand_over-IsTraced :
      (d : Loop) (n : ℕ) (x y : System W)
      → IsTraced p before x
      → hand_over p d n x ≡ some y
      → IsTraced p before y
  hand_over-IsTraced (offering m) (suc n) x y h e =
      that _ y
        (record {
          jobs_named = (tt, h.jobs_named);
          updates_named = h.updates_named;
          reflects = h.reflects;
          balanced = λ test. omega (arith, h.balanced test);
          unfinished = (refl, h.unfinished);
          called = h.called;
        })
        e
  hand_over-IsTraced _ _ x y h e = cc

  give_up-IsTraced :
      (d : Loop) (o : Option Error) (x y : System W)
      → IsTraced p before x
      → give_up p d o x ≡ some y
      → IsTraced p before y
  give_up-IsTraced (offering m) (some x1) x y h e = that _ y h e
  give_up-IsTraced _ _ x y h e = cc

  note_update-named :
      (m : Message) (a : Phase) (s : State W) (us : List Update)
      → IsNamed p m a
      → All (λ (u : Update). notification_of p u.message ≡ some u.id) us
      → All (λ (u : Update). notification_of p u.message ≡ some u.id) (note_update p m a s us)
  note_update-named m (delivered id attempts e) s us named all = (named, all)
  note_update-named m _ s us named all = all

  -- A worker is done with its job only when it has just committed.
  weight-finished :
      (test : Message → Bool) (m : Message) (b : Phase) (ms : List Message)
      → is_finished b ≡ true
      → count test (select (is_event p) (m ∷ ms))
        ≡ weight p test m b + count test (select (is_event p) ms)
  weight-finished test m finished ms h = ground arith
  weight-finished test m _ ms h = cc

  moved-called :
      (n : ℕ) (m : Message) (a : Phase) (x : System W)
      → get_elem? x.jobs n ≡ some (m, a)
      → IsTraced p before x
      → commits (move p m a x.shared).1.calls
        ≡ commits_after m (move p m a x.shared).0 (x.committed ++ commits before.calls)
  moved-called n m a x at h =
      move-commits p m a x.shared
        (All-get (λ (j : Job). is_finished j.1 ≡ false) x.jobs n (m, a) h.unfinished at)
      ∙ ap (commits_after m (move p m a x.shared).0) h.called

  proceed-IsTraced :
      (n : ℕ) (m : Message) (a : Phase) (x : System W)
      → get_elem? x.jobs n ≡ some (m, a)
      → IsTraced p before x
      → IsTraced p before (
          proceed p n m (move p m a x.shared).0 (record x {
            shared = (move p m a x.shared).1;
            updates = note_update p m a x.shared x.updates;
          }))
  proceed-IsTraced n m a x at h =
      let b = (move p m a x.shared).0 in
      let t =
        move-Tallied p m a x.shared
          (All-get (λ (j : Job). IsNamed p j.0 j.1) x.jobs n (m, a) h.jobs_named at) in
      elim (Bool-cases (is_finished b)) [
        | inl done ↦ rw done (record {
          jobs_named = All-remove_at (λ (j : Job). IsNamed p j.0 j.1) x.jobs n h.jobs_named;
          updates_named =
              note_update-named m a x.shared x.updates
                (All-get (λ (j : Job). IsNamed p j.0 j.1) x.jobs n (m, a) h.jobs_named at)
                h.updates_named;
          reflects = move-Reflects p before.db x.updates m a x.shared h.reflects;
          balanced = λ test. omega (
            arith,
            weight-finished test m b x.committed done,
            t.balanced test x.updates,
            h.balanced test,
            weigh-remove_at p test n x.jobs m a at,
          );
          unfinished = All-remove_at (λ (j : Job). is_finished j.1 ≡ false) x.jobs n h.unfinished;
          called = moved-called n m a x at h ∙ rw done refl;
        })
        | inr more ↦ rw more (record {
          jobs_named =
              All-set (λ (j : Job). IsNamed p j.0 j.1) x.jobs n (m, b) t.named h.jobs_named;
          updates_named =
              note_update-named m a x.shared x.updates
                (All-get (λ (j : Job). IsNamed p j.0 j.1) x.jobs n (m, a) h.jobs_named at)
                h.updates_named;
          reflects = move-Reflects p before.db x.updates m a x.shared h.reflects;
          balanced = λ test. omega (
            arith,
            t.balanced test x.updates,
            h.balanced test,
            weigh-set p test n x.jobs m a b at,
          );
          unfinished =
              All-set (λ (j : Job). is_finished j.1 ≡ false) x.jobs n (m, b) more h.unfinished;
          called = moved-called n m a x at h ∙ rw more refl;
        })
      ]

  work_on-IsTraced :
      (n : ℕ) (j : Option Job) (x y : System W)
      → get_elem? x.jobs n ≡ j
      → IsTraced p before x
      → work_on p n j x ≡ some y
      → IsTraced p before y
  work_on-IsTraced n none x y at h e = cc
  work_on-IsTraced n (some (m, a)) x y at h e = that _ y (proceed-IsTraced n m a x at h) e

  turn-IsTraced :
      (t : Turn W) (x y : System W)
      → IsTraced p before x
      → turn p t x ≡ some y
      → IsTraced p before y
  unfolding turn
  turn-IsTraced (outside w) x y h e = that _ y h e
  turn-IsTraced dispatches x y h e = dispatch-IsTraced x.dispatcher x y h e
  turn-IsTraced hands_over x y h e = hand_over-IsTraced x.dispatcher x.idle x y h e
  turn-IsTraced gives_up x y h e =
      give_up-IsTraced x.dispatcher (p.ctx.error x.shared.world) x y h e
  turn-IsTraced (works n) x y h e = work_on-IsTraced n (get_elem? x.jobs n) x y refl h e

  turns-keep :
      (ts : List (Turn W)) (x y : System W)
      → IsTraced p before x
      → turns p ts x ≡ some y
      → IsTraced p before y
  unfolding turns
  turns-keep [] x y h e = that x y h e
  turns-keep (t ∷ ts) x y h e = elim (Option-cases (turn p t x)) [
    | inl stuck ↦ absurd (ground arith)
    | inr (z, one) ↦ turns-keep ts z y (turn-IsTraced t x z h one) (ground arith)
  ]

-- In any order of turns of the dispatcher and of the workers on the shared state, from a start of
-- the pool: the messages that CommitMessages has been called with are those that count as
-- committed; the UPDATEs made are for the notifications of their messages; they are, one for one and
-- message by message, the events that were committed and those that a worker has yet to commit, so
-- that none is committed before its UPDATE; and the tables are those of the start but for them: the
-- rows of a notification show the newest UPDATE of it that the server carried out, and are as they
-- were if there is none, with the same ids and the same users.
pub turns-IsTraced :
    {W : Type 0} (p : Pool W) (n : ℕ) (s : State W) (ts : List (Turn W)) (y : System W)
    → turns p ts (system_start n s) ≡ some y
    → IsTraced p s y
turns-IsTraced p n s ts y h =
    turns-keep p s ts (system_start n s) y
      (record {
        jobs_named = tt;
        updates_named = tt;
        reflects = record { shown = λ id. refl; same_ids = refl; same_users = refl };
        balanced = λ test. refl;
        unfinished = tt;
        called = refl;
      })
      h
