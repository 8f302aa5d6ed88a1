-- ===== src/Worker/Steps.antt =====
-- A worker's handling of one message (handle, deliverWithRetry and commit of
-- internal/worker/pool.go), cut at each call that other goroutines can see: a phase is where the
-- worker stands, with the local variables that are live there.
use pulse_notify.Prelude.{
  ℕ, zero, suc, ◌-◌, ℤ, pos, pos_part, leb_ℤ, Bool, true, false, Option, none, some, ◌∷◌, ◌≡◌, refl,
}
use pulse_notify.Errors.{Error, Result, ok, err}
use pulse_notify.Model.{Uuid, NotificationEvent}
use pulse_notify.External.{Message}
use pulse_notify.State.{State}
use pulse_notify.State
use pulse_notify.Worker.Pool.{Pool, send, pause, bound, backoff, is_some, commit, persist}

pub data Phase : Type 0 where
  -- at the start of `handle`
  received : Phase
  -- at the head of deliverWithRetry's loop: the rounds left, attempt, lastErr
  checking : Uuid → NotificationEvent → ℕ → ℕ → Option Error → Phase
  -- before Send; in the `select` after a failed one; and after ctx.Done() in it
  attempting : Uuid → NotificationEvent → ℕ → ℕ → Phase
  backing_off : Uuid → NotificationEvent → ℕ → ℕ → Error → Phase
  interrupted : Uuid → ℕ → Phase
  -- deliverWithRetry has returned
  delivered : Uuid → ℤ → Option Error → Phase
  -- in `commit`: before and after the test of the context
  ending : Phase
  committing : Bool → Phase
  -- back in the loop of `worker`
  finished : Phase

module _ {W : Type 0} (p : Pool W) where
  -- What follows `commitCtx` in `commit`.
  abbrev pub commit_in : Bool → Message → State W → State W
  commit_in detached msg s =
      let (e, w) = p.consumer.commit detached msg s.world in
      record s { world = w; calls = State.committing detached msg e ∷ s.calls }

  pub commit-eq :
      (msg : Message) (s : State W)
      → commit p msg s ≡ commit_in (is_some p (p.ctx.error s.world)) msg s
  unfolding commit
  commit-eq msg s = refl

  -- The branches on the parsed id, and on the decoded event.
  abbrev pub identified : NotificationEvent → Result Uuid → Phase
  identified evt (err e) = ending
  identified evt (ok id) = checking id evt (pos_part (bound p)) 1 none

  abbrev pub decoded : Result NotificationEvent → Phase
  decoded (err e) = ending
  decoded (ok evt) = identified evt (p.uuid.parse evt.notification_id)

  abbrev pub after_check : Uuid → NotificationEvent → ℕ → ℕ → Option Error → Phase
  after_check id evt rounds attempt (some e) = delivered id (pos (attempt - 1)) (some e)
  after_check id evt rounds attempt none = attempting id evt rounds attempt

  abbrev pub after_failure : Uuid → NotificationEvent → ℕ → ℕ → Error → Bool → Phase
  after_failure id evt rounds attempt x true = backing_off id evt rounds attempt x
  after_failure id evt rounds attempt x false = checking id evt rounds (suc attempt) (some x)

  abbrev pub after_send : Uuid → NotificationEvent → ℕ → ℕ → Option Error → Phase
  after_send id evt rounds attempt none = delivered id (pos attempt) none
  after_send id evt rounds attempt (some x) =
      after_failure id evt rounds attempt x (leb_ℤ (pos attempt) p.max_retries)

  abbrev pub after_wait : Uuid → NotificationEvent → ℕ → ℕ → Error → Bool → Phase
  after_wait id evt rounds attempt x true = interrupted id attempt
  after_wait id evt rounds attempt x false = checking id evt rounds (suc attempt) (some x)

  -- The worker's next step.
  unfoldable pub move : Message → Phase → State W → Phase × State W
  move msg received s = (decoded (p.codec.unmarshal msg.value), s)
  move msg (checking id evt zero attempt last) s = (delivered id (bound p) last, s)
  move msg (checking id evt (suc rounds) attempt last) s =
      (after_check id evt rounds attempt (p.ctx.error s.world), s)
  move msg (attempting id evt rounds attempt) s =
      let (e, s1) = send p evt s in (after_send id evt rounds attempt e, s1)
  move msg (backing_off id evt rounds attempt x) s =
      let (done, s1) = pause p (backoff attempt) s in (after_wait id evt rounds attempt x done, s1)
  move msg (interrupted id attempt) s = (delivered id (pos attempt) (p.ctx.error s.world), s)
  move msg (delivered id attempts e) s = (ending, persist p id attempts e s)
  move msg ending s = (committing (is_some p (p.ctx.error s.world)), s)
  move msg (committing detached) s = (finished, commit_in detached msg s)
  move msg finished s = (finished, s)

  unfoldable pub moves : ℕ → Message → Phase × State W → Phase × State W
  moves zero msg x = x
  moves (suc k) msg x = moves k msg (move msg x.0 x.1)
