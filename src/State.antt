-- ===== src/State.antt =====
-- What the program's functions act on: the two tables of the database, the state of the world
-- outside, and the calls made so far, newest first (a history, which no function reads). Functions
-- that can fail return a result and the new state.
pub mod Inversion
use pulse_notify.Prelude.{List, ◌∷◌, Option, Bool}
use pulse_notify.Errors.{Error, Result, ok, err, to_result, map_error}
use pulse_notify.Model.{User, Notification, NotificationEvent, Duration}
use pulse_notify.External.{Delivery, Message}

pub record Db : Type 0 where
  pub users : List User
  pub notifications : List Notification

-- The calls that the order of effects is stated with.
pub data Call : Type 0 where
  -- a SQL statement, and what became of it
  stated : Delivery → Call
  -- Notifier.Send, and its error
  sending : NotificationEvent → Option Error → Call
  -- a wait, and whether the context was cancelled in it
  waited : Duration → Bool → Call
  -- CommitMessages, with whether its context is detached from the worker's, and its error
  committing : Bool → Message → Option Error → Call

pub record State (W : Type 0) : Type 0 where
  pub db : Db
  pub world : W
  pub calls : List Call

abbrev pub M : Type 0 → Type 0 → Type 0
M W A = State W → Result A × State W

infixl 5 ◌>>=◌ ◌>>◌
abbrev pub ◌>>=◌ : {W A B : Type 0} → M W A → (A → M W B) → M W B
◌>>=◌ m k s = let r = m s in elim r.0 [ ok a ↦ k a r.1 | err e ↦ (err e, r.1) ]

abbrev pub ◌>>◌ : {W B : Type 0} → M W (Unit {0}) → M W B → M W B
m >> k = m >>= λ _. k

abbrev pub pure : {W A : Type 0} → A → M W A
pure a s = (ok a, s)

abbrev pub throw : {W A : Type 0} → Error → M W A
throw e s = (err e, s)

-- if err != nil { return f(err) }
abbrev pub on_error : {W A : Type 0} → (Error → Error) → M W A → M W A
on_error f m s = let r = m s in (map_error f r.0, r.1)

-- The result as a value, for code that goes on after an error.
abbrev pub attempt : {W A : Type 0} → M W A → M W (Result A)
attempt m s = let r = m s in (ok r.0, r.1)

-- A call of the world that returns an error or nil.
abbrev pub call : {W : Type 0} → (W → Option Error × W) → M W (Unit {0})
call f s = let (e, w) = f s.world in (to_result e, record s { world = w })

-- A call of the world that returns a value and an error.
abbrev pub call_result : {W A : Type 0} → (W → Result A × W) → M W A
call_result f s = let (r, w) = f s.world in (r, record s { world = w })

-- A call of the world that cannot fail.
abbrev pub call_value : {W A : Type 0} → (W → A × W) → M W A
call_value f s = let (a, w) = f s.world in (ok a, record s { world = w })
