-- ===== src/Worker/Tally.antt =====
-- How often the messages of a pool were written and committed: each commit of an event follows an
-- UPDATE of its own.
use pulse_notify.Prelude.{
  ℕ, zero, suc, ◌+◌, ◌≡◌, refl, ap, inl, inr, Bool, true, false, ◌&&◌, Bool-cases, Option, none,
  some, Option-cases, List, [], ◌∷◌, map, arith, if◌then◌else◌, leb_ℤ, pos, get_elem?, set,
  remove_at,
}
use pulse_notify.Errors.{ok, err, Result, Result-cases}
use pulse_notify.Model.{Uuid, NotificationEvent}
use pulse_notify.External.{Message}
use pulse_notify.State.{State}
use pulse_notify.Worker.Pool.{Pool, send, pause, backoff}
use pulse_notify.Worker.Conservation.{count}
use pulse_notify.Worker.Steps.{
  Phase, received, checking, attempting, backing_off, interrupted, delivered, ending, committing,
  finished, decoded, move,
}
use pulse_notify.Worker.System.{Job, Update, note_update}

abbrev pub written : List Update → List Message
written = map (λ (u : Update). u.message)

-- Whether a worker in this phase is past the UPDATE.
abbrev pub is_past : Phase → Bool
is_past ending = true
is_past (committing detached) = true
is_past finished = true
is_past _ = false

module _ {W : Type 0} (p : Pool W) where
  abbrev pub parsed_id : Result Uuid → Option Uuid
  parsed_id (err e) = none
  parsed_id (ok id) = some id

  abbrev pub event_id : Result NotificationEvent → Option Uuid
  event_id (err e) = none
  event_id (ok evt) = parsed_id (p.uuid.parse evt.notification_id)

  -- The notification that a message is about, if it is an event with a valid id.
  abbrev pub notification_of : Message → Option Uuid
  notification_of m = event_id (p.codec.unmarshal m.value)

  abbrev pub is_id : Option Uuid → Bool
  is_id none = false
  is_id (some id) = true

  abbrev pub is_event : Message → Bool
  is_event m = is_id (notification_of m)

  -- The notification that a worker works on is that of its message.
  abbrev pub IsNamed : Message → Phase → Type 0
  IsNamed m (checking id evt rounds attempt last) = notification_of m ≡ some id
  IsNamed m (attempting id evt rounds attempt) = notification_of m ≡ some id
  IsNamed m (backing_off id evt rounds attempt x) = notification_of m ≡ some id
  IsNamed m (interrupted id attempt) = notification_of m ≡ some id
  IsNamed m (delivered id attempts e) = notification_of m ≡ some id
  IsNamed m _ = Unit

  -- A job counts once its event has been written and is not committed yet.
  abbrev pub weight : (Message → Bool) → Message → Phase → ℕ
  weight test m ph = if is_past ph && (is_event m && test m) then 1 else 0

  abbrev pub weigh : (Message → Bool) → List Job → ℕ
  weigh test [] = 0
  weigh test ((m, ph) ∷ js) = weight test m ph + weigh test js

  pub weigh-set :
      (test : Message → Bool) (n : ℕ) (js : List Job) (m : Message) (a b : Phase)
      → get_elem? js n ≡ some (m, a)
      → weigh test (set js n (m, b)) + weight test m a ≡ weigh test js + weight test m b
  weigh-set test n [] m a b h = cc
  weigh-set test zero ((k, c) ∷ js) m a b h =
      let same : (k, c) ≡ (m, a) = cc in
      let e : weight test k c ≡ weight test m a = ap (λ (j : Job). weight test j.0 j.1) same in
      omega (arith, e)
  weigh-set test (suc n) ((k, c) ∷ js) m a b h = omega (arith, weigh-set test n js m a b h)

  pub weigh-remove_at :
      (test : Message → Bool) (n : ℕ) (js : List Job) (m : Message) (a : Phase)
      → get_elem? js n ≡ some (m, a)
      → weigh test (remove_at js n) + weight test m a ≡ weigh test js
  weigh-remove_at test n [] m a h = cc
  weigh-remove_at test zero ((k, c) ∷ js) m a h =
      let same : (k, c) ≡ (m, a) = cc in
      let e : weight test k c ≡ weight test m a = ap (λ (j : Job). weight test j.0 j.1) same in
      omega (arith, e)
  weigh-remove_at test (suc n) ((k, c) ∷ js) m a h = omega (arith, weigh-remove_at test n js m a h)

  -- What a step of a worker adds to its weight, it adds to the UPDATEs.
  pub record Tallied (m : Message) (ph next : Phase) (s : State W) : Type 0 where
    pub named : IsNamed m next
    pub balanced :
        (test : Message → Bool) (us : List Update)
        → weight test m next + count test (written us)
          ≡ weight test m ph + count test (written (note_update p m ph s us))

  decoded-Tallied :
      (m : Message) (s : State W) → Tallied m received (decoded p (p.codec.unmarshal m.value)) s
  decoded-Tallied m s = elim (Result-cases (p.codec.unmarshal m.value)) [
    | inr (e, bad) ↦
        let unnamed : notification_of m ≡ none = ground arith in
        rw bad (record { named = tt; balanced = λ test us. rw unnamed refl })
    | inl (evt, good) ↦ elim (Result-cases (p.uuid.parse evt.notification_id)) [
      | inr (e, bad) ↦
          let unnamed : notification_of m ≡ none = ground arith in
          rw (good, bad) (record { named = tt; balanced = λ test us. rw unnamed refl })
      | inl (id, parsed) ↦
          rw (good, parsed) (record { named = ground arith; balanced = λ test us. refl })
    ]
  ]

  pub move-Tallied :
      (m : Message) (ph : Phase) (s : State W) → IsNamed m ph → Tallied m ph (move p m ph s).0 s
  unfolding move
  move-Tallied m received s h = decoded-Tallied m s
  move-Tallied m (checking id evt zero attempt last) s h = record {
    named = h;
    balanced = λ test us. refl;
  }
  move-Tallied m (checking id evt (suc rounds) attempt last) s h =
      elim (Option-cases (p.ctx.error s.world)) [
        | inl running ↦ rw running (record { named = h; balanced = λ test us. refl })
        | inr (e, stop) ↦ rw stop (record { named = h; balanced = λ test us. refl })
      ]
  move-Tallied m (attempting id evt rounds attempt) s h = elim (Option-cases (send p evt s).0) [
    | inl good ↦ rw good (record { named = h; balanced = λ test us. refl })
    | inr (x, bad) ↦ elim (Bool-cases (leb_ℤ (pos attempt) p.max_retries)) [
      | inl again ↦ rw (bad, again) (record { named = h; balanced = λ test us. refl })
      | inr over ↦ rw (bad, over) (record { named = h; balanced = λ test us. refl })
    ]
  ]
  move-Tallied m (backing_off id evt rounds attempt x) s h =
      elim (Bool-cases (pause p (backoff attempt) s).0) [
        | inl done ↦ rw done (record { named = h; balanced = λ test us. refl })
        | inr ready ↦ rw ready (record { named = h; balanced = λ test us. refl })
      ]
  move-Tallied m (interrupted id attempt) s h = record { named = h; balanced = λ test us. refl }
  move-Tallied m (delivered id attempts e) s h = record {
    named = tt;
    balanced = λ test us. rw h (ground arith);
  }
  move-Tallied m ending s h = record { named = tt; balanced = λ test us. refl }
  move-Tallied m (committing detached) s h = record { named = tt; balanced = λ test us. refl }
  move-Tallied m finished s h = record { named = tt; balanced = λ test us. refl }
