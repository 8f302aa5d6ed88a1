-- ===== src/Worker/Order.antt =====
-- The order of the effects of `handle` (internal/worker/pool.go), and the messages that it skips.
use pulse_notify.Prelude.{
  ℕ, suc, ◌+◌, ℤ, ◌≡◌, refl, ◌⊎◌, inl, inr, Bool, Option, none, some, List, [], ◌∷◌, arith,
}
use pulse_notify.Errors.{Error, ok, err, Result-cases}
use pulse_notify.Model.{Uuid, NotificationEvent}
use pulse_notify.External.{Message}
use pulse_notify.State.{State, Call, stated, sending, waited, committing}
use pulse_notify.Worker.Pool.{Pool, commit, persist, handle_valid, handle, deliver_with_retry}
use pulse_notify.Worker.Retry.{EndsWith, sends, deliver_with_retry-keeps}

-- The commits of offsets in a history.
abbrev pub commits : List Call → ℕ
commits [] = 0
commits (committing b msg e ∷ cs) = suc (commits cs)
commits (sending evt e ∷ cs) = commits cs
commits (stated d ∷ cs) = commits cs
commits (waited d done ∷ cs) = commits cs

-- The newest call commits the message.
abbrev pub EndsWithCommit : Message → List Call → Type 0
EndsWithCommit msg cs = (b : Bool) × (e : Option Error) × EndsWith (committing b msg e) cs

module _ {W : Type 0} (p : Pool W) where
  persist-commits :
      (id : Uuid) (attempts : ℤ) (e : Option Error) (s : State W)
      → commits (persist p id attempts e s).calls ≡ commits s.calls
  unfolding persist
  persist-commits id attempts none s = refl
  persist-commits id attempts (some e) s = refl

  deliver-commits :
      (evt : NotificationEvent) (s : State W)
      → commits (deliver_with_retry p evt s).1.calls ≡ commits s.calls
  deliver-commits evt s =
      deliver_with_retry-keeps p evt (λ t. commits t.calls ≡ commits s.calls) (λ t h. h)
        (λ d t h. h) s refl

  commit_lem :
      (msg : Message) (s : State W)
      → EndsWithCommit msg (commit p msg s).calls
        × (commits (commit p msg s).calls ≡ commits s.calls + 1)
  unfolding commit
  commit_lem msg s = ((_, _, (_, refl)), omega arith)

  handle_valid-commits :
      (id : Uuid) (evt : NotificationEvent) (msg : Message) (s : State W)
      → EndsWithCommit msg (handle_valid p id evt msg s).calls
        × (commits (handle_valid p id evt msg s).calls ≡ commits s.calls + 1)
  unfolding handle_valid
  handle_valid-commits id evt msg s =
      let r = deliver_with_retry p evt s in
      let (last, once) = commit_lem msg (persist p id r.0.0 r.0.1 r.1) in
      (last, omega (arith, deliver-commits evt s, persist-commits id r.0.0 r.0.1 r.1))

  -- Whatever the message and whatever fails, `handle` commits its offset exactly once, as the last
  -- of its calls.
  pub handle-commits :
      (msg : Message) (s : State W)
      → EndsWithCommit msg (handle p msg s).calls
        × (commits (handle p msg s).calls ≡ commits s.calls + 1)
  unfolding handle
  handle-commits msg s = elim (Result-cases (p.codec.unmarshal msg.value)) [
    | inr (e, bad) ↦ rw (bad, handle) (commit_lem msg s)
    | inl (evt, good) ↦ elim (Result-cases (p.uuid.parse evt.notification_id)) [
      | inr (e, bad) ↦ rw (good, handle, bad) (commit_lem msg s)
      | inl (id, parsed) ↦ rw (good, handle, parsed) (handle_valid-commits id evt msg s)
    ]
  ]

  -- A message that is no event, or whose notification id is no UUID, is skipped: its offset is
  -- committed, the tables stay as they were, and nothing is sent.
  pub handle-skips :
      (msg : Message) (s : State W)
      → ((e : Error) × (p.codec.unmarshal msg.value ≡ err e))
        ⊎ ((evt : NotificationEvent) × (e : Error) × (p.codec.unmarshal msg.value ≡ ok evt)
            × (p.uuid.parse evt.notification_id ≡ err e))
      → ((handle p msg s).db ≡ s.db)
        × (sends (handle p msg s).calls ≡ sends s.calls)
        × EndsWithCommit msg (handle p msg s).calls
  unfolding handle commit
  handle-skips msg s (inl (e, bad)) = rw (bad, handle) (refl, refl, (_, _, (_, refl)))
  handle-skips msg s (inr (evt, e, good, bad)) =
      rw (good, handle, bad) (refl, refl, (_, _, (_, refl)))

  pub deliver-db :
      (evt : NotificationEvent) (s : State W) → (deliver_with_retry p evt s).1.db ≡ s.db
  deliver-db evt s =
      deliver_with_retry-keeps p evt (λ t. t.db ≡ s.db) (λ t h. h) (λ d t h. h) s refl
