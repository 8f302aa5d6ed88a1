-- ===== src/Worker/Alone.antt =====
-- The steps of a worker (Worker/Steps) make up `handle` of internal/worker/pool.go: a worker that
-- nothing disturbs does with them what `handle` does in one go.
use pulse_notify.Prelude.{
  ℕ, zero, suc, ◌+◌, ℤ, pos, pos_part, leb_ℤ, ◌≡◌, refl, sym, ap, ◌∙◌, subst, inl, inr, Bool-cases,
  Option, none, some, Option-cases, arith,
}
use pulse_notify.Errors.{Error, Result-cases}
use pulse_notify.Model.{Uuid, NotificationEvent}
use pulse_notify.External.{Message}
use pulse_notify.State.{State}
use pulse_notify.Worker.Pool.{
  Pool, send, pause, bound, backoff, persist, commit, deliver_from, deliver_with_retry,
  handle_valid, handle,
}
use pulse_notify.Worker.Steps.{
  Phase, received, checking, attempting, backing_off, interrupted, delivered, ending, finished,
  commit-eq, move, moves,
}

module _ {W : Type 0} (p : Pool W) (msg : Message) where
  -- Some number of steps leads from the one to the other.
  abbrev pub LeadsTo : Phase × State W → Phase × State W → Type 0
  LeadsTo x y = (k : ℕ) × (moves p k msg x ≡ y)

  -- One more step before.
  step : (x : Phase × State W) {y : Phase × State W} → LeadsTo (move p msg x.0 x.1) y → LeadsTo x y
  unfolding moves
  step x (k, e) = (suc k, e)

  there : (x : Phase × State W) → LeadsTo x x
  unfolding moves
  there x = (zero, refl)

  moves-add :
      (j k : ℕ) (x : Phase × State W) → moves p (j + k) msg x ≡ moves p k msg (moves p j msg x)
  unfolding moves
  moves-add zero k x = let e : 0 + k ≡ k = omega arith in rw e refl
  moves-add (suc j) k x =
      let e : suc j + k ≡ suc (j + k) = omega arith in rw e (moves-add j k (move p msg x.0 x.1))

  and_then : (x y z : Phase × State W) → LeadsTo x y → LeadsTo y z → LeadsTo x z
  and_then x y z (j, e) (k, f) = (j + k, moves-add j k x ∙ ap (λ t. moves p k msg t) e ∙ f)

  -- One more step before, to a phase that is known by an equation.
  via :
      (x : Phase × State W) (next : Phase) (y : Phase × State W)
      → (move p msg x.0 x.1).0 ≡ next
      → LeadsTo (next, (move p msg x.0 x.1).1) y
      → LeadsTo x y
  via x next y e t = step x (subst (λ q. LeadsTo (q, (move p msg x.0 x.1).1) y) (sym e) t)

  -- deliverWithRetry has returned.
  abbrev return : Uuid → (ℤ × Option Error) × State W → Phase × State W
  return id r = (delivered id r.0.0 r.0.1, r.1)

  returning :
      (id : Uuid) (x : Phase × State W) (r q : (ℤ × Option Error) × State W)
      → r ≡ q
      → LeadsTo x (return id q)
      → LeadsTo x (return id r)
  returning id x r q e t = subst (λ o. LeadsTo x (return id o)) (sym e) t

  -- The loop of deliverWithRetry.
  loop-LeadsTo :
      (id : Uuid) (evt : NotificationEvent) (rounds attempt : ℕ) (last : Option Error) (s : State W)
      → LeadsTo
          (checking id evt rounds attempt last, s)
          (return id (deliver_from p evt rounds attempt last s))
  unfolding deliver_from move
  loop-LeadsTo id evt zero attempt last s = step _ (there _)
  loop-LeadsTo id evt (suc rounds) attempt last s =
      let s1 = (send p evt s).1 in
      let s2 = (pause p (backoff attempt) s1).1 in
      let r = deliver_from p evt (suc rounds) attempt last s in
      elim (Option-cases (p.ctx.error s.world)) [
        | inr (e, cancelled) ↦
            step (checking id evt (suc rounds) attempt last, s)
              (rw (cancelled, deliver_from, move) (there _))
        | inl running ↦
            via (checking id evt (suc rounds) attempt last, s) (attempting id evt rounds attempt)
              (return id r) (rw (running, move) refl)
              (elim (Option-cases (p.notifier evt s.world).0) [
                | inl succeeded ↦
                    rw (running, deliver_from, succeeded)
                      (step (attempting id evt rounds attempt, s) (rw (succeeded, move) (there _)))
                | inr (x, lost) ↦ elim (Bool-cases (leb_ℤ (pos attempt) p.max_retries)) [
                  | inl again ↦
                      via (attempting id evt rounds attempt, s)
                        (backing_off id evt rounds attempt x) (return id r)
                        (rw (lost, move, again) refl)
                        (elim (Bool-cases (p.ctx.wait (backoff attempt) s1.world).0) [
                          | inl done ↦
                              via (backing_off id evt rounds attempt x, s1) (interrupted id attempt)
                                (return id r) (rw (done, move) refl)
                                (step (interrupted id attempt, s2)
                                  (returning id _ r ((pos attempt, p.ctx.error s2.world), s2)
                                    (ground arith) (there _)))
                          | inr ready ↦
                              via (backing_off id evt rounds attempt x, s1)
                                (checking id evt rounds (suc attempt) (some x)) (return id r)
                                (rw (ready, move) refl)
                                (returning id _ r
                                  (deliver_from p evt rounds (suc attempt) (some x) s2)
                                  (ground arith)
                                  (loop-LeadsTo id evt rounds (suc attempt) (some x) s2))
                        ])
                  | inr over ↦
                      via (attempting id evt rounds attempt, s)
                        (checking id evt rounds (suc attempt) (some x)) (return id r)
                        (rw (lost, move, over) refl)
                        (returning id _ r (deliver_from p evt rounds (suc attempt) (some x) s1)
                          (ground arith) (loop-LeadsTo id evt rounds (suc attempt) (some x) s1))
                ]
              ])
      ]

  -- commit.
  commit-LeadsTo : (s : State W) → LeadsTo (ending, s) (finished, commit p msg s)
  unfolding move
  commit-LeadsTo s = rw (commit-eq p msg s) (step (ending, s) (step _ (there _)))

  valid-LeadsTo :
      (id : Uuid) (evt : NotificationEvent) (s : State W)
      → LeadsTo
          (checking id evt (pos_part (bound p)) 1 none, s)
          (finished, handle_valid p id evt msg s)
  unfolding move deliver_with_retry handle_valid
  valid-LeadsTo id evt s =
      let r = deliver_with_retry p evt s in
      and_then _ _ _ (loop-LeadsTo id evt (pos_part (bound p)) 1 none s)
        (step (delivered id r.0.0 r.0.1, r.1) (commit-LeadsTo (persist p id r.0.0 r.0.1 r.1)))

  -- From the receipt of a message, some number of steps of the worker leads to its end, with the
  -- state that `handle` leaves, if nothing else happens between them.
  pub moves-handle : (s : State W) → LeadsTo (received, s) (finished, handle p msg s)
  unfolding move handle
  moves-handle s = elim (Result-cases (p.codec.unmarshal msg.value)) [
    | inr (e, bad) ↦
        via (received, s) ending _ (rw (bad, move) refl) (rw (bad, handle) (commit-LeadsTo s))
    | inl (evt, good) ↦ elim (Result-cases (p.uuid.parse evt.notification_id)) [
      | inr (e, bad) ↦
          via (received, s) ending _ (rw (good, move, bad) refl)
            (rw (good, handle, bad) (commit-LeadsTo s))
      | inl (id, parsed) ↦
          via (received, s) (checking id evt (pos_part (bound p)) 1 none) _
            (rw (good, move, parsed) refl) (rw (good, handle, parsed) (valid-LeadsTo id evt s))
    ]
  ]
