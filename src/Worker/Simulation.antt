-- ===== src/Worker/Simulation.antt =====
-- The pool with its shared state (Worker/System) refines the steps of Worker/Dispatch.
use pulse_notify.Prelude.{
  ℕ, zero, suc, ◌≡◌, refl, sym, ap, ◌∙◌, subst, ◌⊎◌, inl, inr, ◌||◌, Bool-cases, Option, none, some,
  Option-cases, List, [], ◌∷◌, arith, get_elem?, set, remove_at,
}
use pulse_notify.Errors.{Error, canceled, errors_is, Result-cases}
use pulse_notify.External.{Message}
use pulse_notify.Worker.Pool.{Pool, is_some}
use pulse_notify.Worker.Dispatch
use pulse_notify.Worker.Dispatch.{Run, RunStep, pick, run_step, run}
use pulse_notify.Worker.Steps.{Phase, move}
use pulse_notify.Worker.System.{
  Loop, fetching, fetch_failed, retrying, offering, closed, Job, System, Turn, outside, dispatches,
  hands_over, gives_up, works, is_finished, dispatch, hand_over, give_up, note_update, proceed,
  work_on, turn, turns, messages, view,
}

messages-set :
    (n : ℕ) (js : List Job) (m : Message) (a b : Phase)
    → get_elem? js n ≡ some (m, a)
    → messages (set js n (m, b)) ≡ messages js
messages-set n [] m a b h = refl
messages-set zero (j ∷ js) m a b h = ground arith
messages-set (suc n) (j ∷ js) m a b h = ap (λ ms. j.0 ∷ ms) (messages-set n js m a b h)

pick-messages :
    (n : ℕ) (js : List Job) (m : Message) (a : Phase)
    → get_elem? js n ≡ some (m, a)
    → pick n (messages js) ≡ some (m, messages (remove_at js n))
unfolding pick
pick-messages n [] m a h = cc
pick-messages zero (j ∷ js) m a h = ground arith
pick-messages (suc n) (j ∷ js) m a h = rw (pick-messages n js m a h, pick) refl

-- What a turn is in Worker/Dispatch: one step, or none.
abbrev Simulates : Run → Run → Type 0
Simulates r r1 = (r1 ≡ r) ⊎ ((e : RunStep) × (run_step e r ≡ some r1))

module _ {W : Type 0} (p : Pool W) where
  proceed-Simulates :
      (n : ℕ) (m : Message) (a b : Phase) (x : System W)
      → get_elem? x.jobs n ≡ some (m, a)
      → Simulates (view x) (view (proceed p n m b x))
  unfolding run_step pick
  proceed-Simulates n m a b x h = elim (Bool-cases (is_finished b)) [
    | inl done ↦ inr (Dispatch.finishes n, rw (pick-messages n x.jobs m a h, run_step, done) refl)
    | inr more ↦ inl (rw (more, messages-set n x.jobs m a b h) refl)
  ]

  settled :
      (r : Run) (z y : System W) → Simulates r (view z) → some z ≡ some y → Simulates r (view y)
  settled r z y h e = let same : z ≡ y = cc in subst (λ t. Simulates r (view t)) same h

  dispatch-Simulates :
      (d : Loop) (x y : System W)
      → dispatch p d x ≡ some y
      → Simulates (view (record x { dispatcher = d })) (view y)
  unfolding run_step
  dispatch-Simulates fetching x y h =
      settled _ _ y
        (elim (Result-cases (p.consumer.fetch x.shared.world).0) [
          | inl (m, got) ↦ rw got (inr (Dispatch.fetches m, refl))
          | inr (e, failed) ↦ rw failed (inl refl)
        ])
        h
  dispatch-Simulates (fetch_failed e) x y h =
      settled _ _ y
        (elim (Bool-cases (errors_is e canceled || is_some p (p.ctx.error x.shared.world))) [
          | inl stop ↦ rw stop (inr (Dispatch.cancelled, refl))
          | inr again ↦ rw again (inr (Dispatch.fetch_fails, refl))
        ])
        h
  dispatch-Simulates retrying x y h = settled _ _ y (inl refl) h
  dispatch-Simulates (offering m) x y h = cc
  dispatch-Simulates closed x y h = cc

  hand_over-Simulates :
      (d : Loop) (n : ℕ) (x y : System W)
      → hand_over p d n x ≡ some y
      → Simulates (view (record x { dispatcher = d; idle = n })) (view y)
  unfolding run_step
  hand_over-Simulates (offering m) (suc n) x y h = settled _ _ y (inr (Dispatch.hands_over, refl)) h
  hand_over-Simulates _ _ x y h = cc

  give_up-Simulates :
      (d : Loop) (e : Option Error) (x y : System W)
      → give_up p d e x ≡ some y
      → Simulates (view (record x { dispatcher = d })) (view y)
  unfolding run_step
  give_up-Simulates (offering m) (some e) x y h = settled _ _ y (inr (Dispatch.gives_up, refl)) h
  give_up-Simulates _ _ x y h = cc

  work_on-Simulates :
      (n : ℕ) (j : Option Job) (x y : System W)
      → get_elem? x.jobs n ≡ j
      → work_on p n j x ≡ some y
      → Simulates (view x) (view y)
  work_on-Simulates n none x y at h = cc
  work_on-Simulates n (some (m, a)) x y at h =
      let (b, s1) = move p m a x.shared in
      settled _ _ y
        (proceed-Simulates n m a b
          (record x { shared = s1; updates = note_update p m a x.shared x.updates }) at)
        h

  turn-Simulates : (t : Turn W) (x y : System W) → turn p t x ≡ some y → Simulates (view x) (view y)
  unfolding turn
  turn-Simulates (outside w) x y h = settled _ _ y (inl refl) h
  turn-Simulates dispatches x y h = dispatch-Simulates x.dispatcher x y h
  turn-Simulates hands_over x y h = hand_over-Simulates x.dispatcher x.idle x y h
  turn-Simulates gives_up x y h = give_up-Simulates x.dispatcher (p.ctx.error x.shared.world) x y h
  turn-Simulates (works n) x y h = work_on-Simulates n (get_elem? x.jobs n) x y refl h

  then_runs :
      (r r1 r2 : Run)
      → Simulates r r1
      → ((es : List RunStep) × (run es r1 ≡ some r2))
      → (es : List RunStep) × (run es r ≡ some r2)
  unfolding run
  then_runs r r1 r2 (inl same) (es, e) = (es, ap (run es) (sym same) ∙ e)
  then_runs r r1 r2 (inr (s, one)) (es, e) = (s ∷ es, rw (one, run) e)

  -- Every schedule of the dispatcher and the workers on their shared state is, step by step, one of
  -- Worker/Dispatch: the order in which messages are fetched, handed over, committed and dropped is
  -- one of those.
  pub turns-run :
      (ts : List (Turn W)) (x y : System W)
      → turns p ts x ≡ some y
      → (es : List RunStep) × (run es (view x) ≡ some (view y))
  unfolding turns run
  turns-run [] x y h = ([], let same : x ≡ y = cc in ap (λ z. some (view z)) same)
  turns-run (t ∷ ts) x y h = elim (Option-cases (turn p t x)) [
    | inl stuck ↦ absurd (ground arith)
    | inr (z, one) ↦
        then_runs (view x) (view z) (view y) (turn-Simulates t x z one)
          (turns-run ts z y (ground arith))
  ]
