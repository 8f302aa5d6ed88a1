-- ===== src/Together/Turns.antt =====
-- What a turn of the pool (internal/worker/pool.go) does to the tables.
use pulse_notify.Prelude.{
  ℕ, zero, suc, ℤ, ◌≡◌, subst, Option, none, some, inl, inr, Bool-cases, get_elem?,
}
use pulse_notify.Errors.{Error, message, Result-cases}
use pulse_notify.Model.{Uuid}
use pulse_notify.External.{Message}
use pulse_notify.State.{Db, State}
use pulse_notify.Worker.Pool.{Pool, persist}
use pulse_notify.Worker.Steps.{
  Phase, received, checking, attempting, backing_off, interrupted, delivered, ending, committing,
  finished, move,
}
use pulse_notify.Worker.System.{
  Loop, fetching, fetch_failed, retrying, offering, closed, Job, System, Turn, outside, dispatches,
  hands_over, gives_up, works, is_finished, dispatch, hand_over, give_up, note_update, proceed,
  work_on, turn,
}
use pulse_notify.Together.{IsKept}

module _ {W : Type 0} (P : Db → Type 0) (p : Pool W) (kept : IsKept W P) where
  persist-keeps :
      (id : Uuid) (attempts : ℤ) (e : Option Error) (s : State W)
      → P s.db
      → P (persist p id attempts e s).db
  unfolding persist
  persist-keeps id attempts none s h = kept.by_sent p.repo id attempts s h
  persist-keeps id attempts (some e) s h = kept.by_failed p.repo id attempts (message e) s h

  move-keeps : (m : Message) (ph : Phase) (s : State W) → P s.db → P (move p m ph s).1.db
  unfolding move
  move-keeps m (delivered id attempts e) s h = persist-keeps id attempts e s h
  move-keeps m received s h = h
  move-keeps m (checking id evt zero attempt last) s h = h
  move-keeps m (checking id evt (suc rounds) attempt last) s h = h
  move-keeps m (attempting id evt rounds attempt) s h = h
  move-keeps m (backing_off id evt rounds attempt x) s h = h
  move-keeps m (interrupted id attempt) s h = h
  move-keeps m ending s h = h
  move-keeps m (committing detached) s h = h
  move-keeps m finished s h = h

  that : (y z : System W) → P y.shared.db → some y ≡ some z → P z.shared.db
  that y z h e = let same : y ≡ z = cc in subst (λ (x : System W). P x.shared.db) same h

  dispatch-keeps :
      (d : Loop) (x y : System W) → P x.shared.db → dispatch p d x ≡ some y → P y.shared.db
  dispatch-keeps fetching x y h e =
      that _ y
        (elim (Result-cases (p.consumer.fetch x.shared.world).0) [
          | inl (m, got) ↦ rw got h
          | inr (x1, failed) ↦ rw failed h
        ])
        e
  dispatch-keeps (fetch_failed x1) x y h e = that _ y h e
  dispatch-keeps retrying x y h e = that _ y h e
  dispatch-keeps (offering m) x y h e = cc
  dispatch-keeps closed x y h e = cc

  hand_over-keeps :
      (d : Loop) (n : ℕ) (x y : System W)
      → P x.shared.db
      → hand_over p d n x ≡ some y
      → P y.shared.db
  hand_over-keeps (offering m) (suc n) x y h e = that _ y h e
  hand_over-keeps _ _ x y h e = cc

  give_up-keeps :
      (d : Loop) (o : Option Error) (x y : System W)
      → P x.shared.db
      → give_up p d o x ≡ some y
      → P y.shared.db
  give_up-keeps (offering m) (some x1) x y h e = that _ y h e
  give_up-keeps _ _ x y h e = cc

  proceed-keeps :
      (n : ℕ) (m : Message) (b : Phase) (x : System W)
      → P x.shared.db
      → P (proceed p n m b x).shared.db
  proceed-keeps n m b x h = elim (Bool-cases (is_finished b)) [
    | inl done ↦ rw done h
    | inr more ↦ rw more h
  ]

  work_on-keeps :
      (n : ℕ) (j : Option Job) (x y : System W)
      → P x.shared.db
      → work_on p n j x ≡ some y
      → P y.shared.db
  work_on-keeps n none x y h e = cc
  work_on-keeps n (some (m, a)) x y h e =
      that _ y
        (proceed-keeps n m (move p m a x.shared).0
          (record x {
            shared = (move p m a x.shared).1;
            updates = note_update p m a x.shared x.updates;
          })
          (move-keeps m a x.shared h))
        e

  -- A turn keeps what the writes of the repositories keep.
  pub turn-keeps :
      (t : Turn W) (x y : System W) → P x.shared.db → turn p t x ≡ some y → P y.shared.db
  unfolding turn
  turn-keeps (outside w) x y h e = that _ y h e
  turn-keeps dispatches x y h e = dispatch-keeps x.dispatcher x y h e
  turn-keeps hands_over x y h e = hand_over-keeps x.dispatcher x.idle x y h e
  turn-keeps gives_up x y h e = give_up-keeps x.dispatcher (p.ctx.error x.shared.world) x y h e
  turn-keeps (works n) x y h e = work_on-keeps n (get_elem? x.jobs n) x y h e
