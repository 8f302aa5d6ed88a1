-- ===== src/Worker/Commits.antt =====
-- The calls of CommitMessages that a step of a worker (internal/worker/pool.go) makes.
use pulse_notify.Prelude.{
  zero, suc, ◌≡◌, refl, false, Bool-cases, inl, inr, none, some, Option, Option-cases, List, [],
  ◌∷◌, if◌then◌else◌, leb_ℤ, pos, ℤ,
}
use pulse_notify.Errors.{Error, Result-cases}
use pulse_notify.Model.{Uuid}
use pulse_notify.External.{Message}
use pulse_notify.State.{Call, State}
use pulse_notify.State as Calls
use pulse_notify.Worker.Pool.{Pool, send, pause, backoff, persist}
use pulse_notify.Worker.Steps.{
  Phase, received, checking, attempting, backing_off, interrupted, delivered, ending, committing,
  finished, move,
}
use pulse_notify.Worker.System.{is_finished}

-- The messages of the commits among some calls, in the order of the calls.
abbrev pub commits : List Call → List Message
commits [] = []
commits (Calls.committing detached m e ∷ cs) = m ∷ commits cs
commits (_ ∷ cs) = commits cs

-- The commits of a step that leads to a phase.
abbrev pub commits_after : Message → Phase → List Message → List Message
commits_after m ph ms = if is_finished ph then m ∷ ms else ms

module _ {W : Type 0} (p : Pool W) (m : Message) where
  persist-commits :
      (id : Uuid) (attempts : ℤ) (e : Option Error) (s : State W)
      → commits (persist p id attempts e s).calls ≡ commits s.calls
  unfolding persist
  persist-commits id attempts none s = refl
  persist-commits id attempts (some e) s = refl

  -- A step of a worker commits the worker's message and is then its last, or it commits nothing.
  pub move-commits :
      (ph : Phase) (s : State W)
      → is_finished ph ≡ false
      → commits (move p m ph s).1.calls ≡ commits_after m (move p m ph s).0 (commits s.calls)
  unfolding move
  move-commits received s h = elim (Result-cases (p.codec.unmarshal m.value)) [
    | inr (e, bad) ↦ rw bad refl
    | inl (evt, good) ↦ elim (Result-cases (p.uuid.parse evt.notification_id)) [
      | inr (e, bad) ↦ rw (good, bad) refl
      | inl (id, parsed) ↦ rw (good, parsed) refl
    ]
  ]
  move-commits (checking id evt zero attempt last) s h = refl
  move-commits (checking id evt (suc rounds) attempt last) s h =
      elim (Option-cases (p.ctx.error s.world)) [
        | inl running ↦ rw running refl
        | inr (e, stop) ↦ rw stop refl
      ]
  move-commits (attempting id evt rounds attempt) s h = elim (Option-cases (send p evt s).0) [
    | inl good ↦ rw good refl
    | inr (x, bad) ↦ elim (Bool-cases (leb_ℤ (pos attempt) p.max_retries)) [
      | inl again ↦ rw (bad, again) refl
      | inr over ↦ rw (bad, over) refl
    ]
  ]
  move-commits (backing_off id evt rounds attempt x) s h =
      elim (Bool-cases (pause p (backoff attempt) s).0) [
        | inl done ↦ rw done refl
        | inr ready ↦ rw ready refl
      ]
  move-commits (interrupted id attempt) s h = refl
  move-commits (delivered id attempts e) s h = persist-commits id attempts e s
  move-commits ending s h = refl
  move-commits (committing detached) s h = refl
  move-commits finished s h = cc
