-- ===== src/Worker/System.antt =====
-- Run, worker and handle of internal/worker/pool.go together: the dispatcher and the workers, as
-- goroutines that take turns on one shared state. A schedule is the order of the turns, in which
-- the world outside may change between any two.
use pulse_notify.Prelude.{
  ℕ, suc, ℤ, pos, Bool, true, false, ◌||◌, Option, none, some, List, [], ◌∷◌, map, if◌then◌else◌,
  get_elem?, set, remove_at,
}
use pulse_notify.Errors.{Error, canceled, errors_is, Result, ok, err}
use pulse_notify.Model.{Uuid, Duration}
use pulse_notify.External.{Delivery, Message}
use pulse_notify.State.{State}
use pulse_notify.Worker.Pool.{Pool, pause, is_some}
use pulse_notify.Worker.Dispatch
use pulse_notify.Worker.Dispatch.{Dispatcher, Run}
use pulse_notify.Worker.Steps.{Phase, received, delivered, finished, move}

-- Where the dispatcher is in the loop of Run.
pub data Loop : Type 0 where
  fetching : Loop
  -- before the tests of Fetch's error, and in the `select` of the pause after them
  fetch_failed : Error → Loop
  retrying : Loop
  offering : Message → Loop
  closed : Loop

-- A message that a worker handles, and where the worker is.
abbrev pub Job : Type 0
Job = Message × Phase

-- The UPDATE that a worker made for its message, and what became of the statement.
pub record Update : Type 0 where
  pub message : Message
  pub id : Uuid
  pub attempts : ℤ
  pub error : Option Error
  pub delivery : Delivery

pub record System (W : Type 0) : Type 0 where
  pub shared : State W
  pub dispatcher : Loop
  -- the workers that wait for a message, and the jobs of the others, newest first
  pub idle : ℕ
  pub jobs : List Job
  -- histories, newest first: the messages that were fetched, that were committed, that nobody took
  -- at the end, and the UPDATEs
  pub fetched : List Message
  pub committed : List Message
  pub dropped : List Message
  pub updates : List Update

pub data Turn (W : Type 0) : Type 0 where
  -- the world outside changes
  outside : W → Turn W
  -- the dispatcher's next step; its `select` on `jobs <- msg` and ctx.Done()
  dispatches : Turn W
  hands_over : Turn W
  gives_up : Turn W
  -- the next step of the worker with this job
  works : ℕ → Turn W

abbrev pub second : Duration
second = pos 1000000000

abbrev pub is_finished : Phase → Bool
is_finished finished = true
is_finished _ = false

module _ {W : Type 0} (p : Pool W) where
  abbrev pub after_fetch : Result Message → System W → System W
  after_fetch (ok m) x = record x { dispatcher = offering m; fetched = m ∷ x.fetched }
  after_fetch (err e) x = record x { dispatcher = fetch_failed e }

  abbrev pub dispatch : Loop → System W → Option (System W)
  dispatch fetching x =
      let (r, w) = p.consumer.fetch x.shared.world in
      some (after_fetch r (record x { shared = record x.shared { world = w } }))
  dispatch (fetch_failed e) x =
      let stop = errors_is e canceled || is_some p (p.ctx.error x.shared.world) in
      some (record x { dispatcher = if stop then closed else retrying })
  dispatch retrying x =
      some (record x { shared = (pause p second x.shared).1; dispatcher = fetching })
  dispatch (offering m) x = none
  dispatch closed x = none

  -- `jobs <- msg` goes through when a worker waits.
  abbrev pub hand_over : Loop → ℕ → System W → Option (System W)
  hand_over (offering m) (suc n) x =
      some (record x { dispatcher = fetching; idle = n; jobs = (m, received) ∷ x.jobs })
  hand_over _ _ x = none

  -- ctx.Done() goes through when the context has ended.
  abbrev pub give_up : Loop → Option Error → System W → Option (System W)
  give_up (offering m) (some e) x = some (record x { dispatcher = closed; dropped = m ∷ x.dropped })
  give_up _ _ x = none

  abbrev pub note_update : Message → Phase → State W → List Update → List Update
  note_update m (delivered id attempts e) s us =
      record {
        message = m;
        id = id;
        attempts = attempts;
        error = e;
        delivery = (p.repo.statement s.world).0.delivery;
      }
      ∷ us
  note_update m _ s us = us

  -- The worker goes on with its job, or waits for the next message.
  abbrev pub proceed : ℕ → Message → Phase → System W → System W
  proceed n m ph x =
      if is_finished ph
      then record x { idle = suc x.idle; jobs = remove_at x.jobs n; committed = m ∷ x.committed }
      else record x { jobs = set x.jobs n (m, ph) }

  abbrev pub work_on : ℕ → Option Job → System W → Option (System W)
  work_on n none x = none
  work_on n (some (m, ph)) x =
      let (ph1, s1) = move p m ph x.shared in
      some
        (proceed n m ph1 (record x { shared = s1; updates = note_update m ph x.shared x.updates }))

  -- One turn, if it is possible.
  unfoldable pub turn : Turn W → System W → Option (System W)
  turn (outside w) x = some (record x { shared = record x.shared { world = w } })
  turn dispatches x = dispatch x.dispatcher x
  turn hands_over x = hand_over x.dispatcher x.idle x
  turn gives_up x = give_up x.dispatcher (p.ctx.error x.shared.world) x
  turn (works n) x = work_on n (get_elem? x.jobs n) x

  unfoldable pub turns : List (Turn W) → System W → Option (System W)
  unfolding turn
  turns [] x = some x
  turns (t ∷ ts) x = elim (turn t x) [ none ↦ none | some y ↦ turns ts y ]

-- The pool when Run has started its workers.
abbrev pub system_start : {W : Type 0} → ℕ → State W → System W
system_start concurrency s = record {
  shared = s;
  dispatcher = fetching;
  idle = concurrency;
  jobs = [];
  fetched = [];
  committed = [];
  dropped = [];
  updates = [];
}

-- What Worker/Dispatch says of a dispatcher and of a pool.
abbrev pub loop_view : Loop → Dispatcher
loop_view fetching = Dispatch.fetching
loop_view (fetch_failed e) = Dispatch.fetching
loop_view retrying = Dispatch.fetching
loop_view (offering m) = Dispatch.offering m
loop_view closed = Dispatch.closed

abbrev pub messages : List Job → List Message
messages = map (λ (j : Job). j.0)

abbrev pub view : {W : Type 0} → System W → Run
view x = record {
  dispatcher = loop_view x.dispatcher;
  idle = x.idle;
  busy = messages x.jobs;
  fetched = x.fetched;
  committed = x.committed;
  dropped = x.dropped;
}
