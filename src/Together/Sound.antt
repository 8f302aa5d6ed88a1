-- ===== src/Together/Sound.antt =====
-- The tables of internal/database after any mixture of requests to the API and turns of the pool of
-- workers.
use pulse_notify.Prelude.{
  subst, ◌≡◌, refl, inl, inr, Option, none, some, Option-cases, List, [], ◌∷◌, arith, codes,
}
use pulse_notify.State.{Db}
use pulse_notify.Http.{GinContext}
use pulse_notify.Database.Outcome.{run_statement-keeps}
use pulse_notify.Repository.Users
use pulse_notify.Repository.Users.{new_user, insert_user}
use pulse_notify.Repository.Notifications
use pulse_notify.Repository.Notifications.{
  new_notification, insert_notification, update_rows, set_sent, set_failed, update_sent,
  update_failed,
}
use pulse_notify.Repository.Integrity.{IsValid}
use pulse_notify.Repository.Writes.{
  create_user, create_notification, mark_sent, mark_failed, perform, perform-IsValid,
}
use pulse_notify.Router.{Deps, Route, serve}
use pulse_notify.Worker.Pool.{Pool}
use pulse_notify.Worker.System.{System, Turn, turn}
use pulse_notify.Together.{IsKept}
use pulse_notify.Together.Requests.{serve-Keeps}
use pulse_notify.Together.Turns.{turn-keeps}
use pulse_notify.Together.Growth.{
  Grows, Grows-refl, insert_user-Grows, insert_notification-Grows, updated-Grows,
}

-- What happens next: a request on a route, or a turn of the pool.
pub data Event (W : Type 0) : Type 0 where
  requests : Route → GinContext → Event W
  takes_turn : Turn W → Event W

module _ {W : Type 0} (deps : Deps W) (p : Pool W) where
  unfoldable pub happen : Event W → System W → Option (System W)
  unfolding serve turn
  happen (requests route c) x = some (record x { shared = (serve deps route c x.shared).1 })
  happen (takes_turn t) x = turn p t x

  unfoldable pub happen_all : List (Event W) → System W → Option (System W)
  unfolding happen
  happen_all [] x = some x
  happen_all (e ∷ es) x = elim (happen e x) [ none ↦ none | some y ↦ happen_all es y ]

-- The tables are sound, and hold what they held.
pub record IsSound (before db : Db) : Type 0 where
  pub valid : IsValid db
  pub grows : Grows before db

module _ {W : Type 0} (before : Db) where
  IsSound-IsKept : IsKept W (IsSound before)
  unfolding perform Users.create Notifications.create Notifications.mark_sent
      Notifications.mark_failed update_sent update_failed
  IsSound-IsKept = record {
    by_user = λ pg email hash name s h. record {
      valid = perform-IsValid pg (create_user email hash name (codes "user")) s h.valid;
      grows =
          run_statement-keeps (Grows before) pg (insert_user email hash name (codes "user"))
            (insert_user-Grows before email hash name) s h.grows;
    };
    by_notification = λ pg id channel recipient subject body s h. record {
      valid = perform-IsValid pg (create_notification id channel recipient subject body) s h.valid;
      grows =
          run_statement-keeps (Grows before) pg
            (insert_notification id channel recipient subject body)
            (insert_notification-Grows before id channel recipient subject body) s h.grows;
    };
    by_sent = λ pg id attempts s h. record {
      valid = perform-IsValid pg (mark_sent id attempts) s h.valid;
      grows =
          run_statement-keeps (Grows before) pg (update_sent id attempts)
            (λ st db.
              updated-Grows before attempts id (set_sent attempts st.now) db (λ n. refl)
                (λ n. refl))
            s h.grows;
    };
    by_failed = λ pg id attempts last_error s h. record {
      valid = perform-IsValid pg (mark_failed id attempts last_error) s h.valid;
      grows =
          run_statement-keeps (Grows before) pg (update_failed id attempts last_error)
            (λ st db.
              updated-Grows before attempts id (set_failed attempts last_error st.now) db
                (λ n. refl) (λ n. refl))
            s h.grows;
    };
  }

  module _ (deps : Deps W) (p : Pool W) where
    happen-IsSound :
        (e : Event W) (x y : System W)
        → IsSound before x.shared.db
        → happen deps p e x ≡ some y
        → IsSound before y.shared.db
    unfolding happen
    happen-IsSound (requests route c) x y h e =
        let served = serve-Keeps (IsSound before) deps IsSound-IsKept route c x.shared h in
        let same : record x { shared = (serve deps route c x.shared).1 } ≡ y = cc in
        subst (λ (z : System W). IsSound before z.shared.db) same served
    happen-IsSound (takes_turn t) x y h e = turn-keeps (IsSound before) p IsSound-IsKept t x y h e

    happen_all-keeps :
        (es : List (Event W)) (x y : System W)
        → IsSound before x.shared.db
        → happen_all deps p es x ≡ some y
        → IsSound before y.shared.db
    unfolding happen_all
    happen_all-keeps [] x y h e =
        let same : x ≡ y = cc in subst (λ (z : System W). IsSound before z.shared.db) same h
    happen_all-keeps (e ∷ es) x y h all = elim (Option-cases (happen deps p e x)) [
      | inl stuck ↦ absurd (ground arith)
      | inr (z, one) ↦ happen_all-keeps es z y (happen-IsSound e x z h one) (ground arith)
    ]

-- Whatever requests the API serves on its ten routes, and whatever turns the pool takes between
-- them, in any order and with any failures: if the tables were sound at the start, they are at the
-- end; no user and no notification has been removed; no user has been changed, and each new one is
-- an ordinary user; each notification still asks for what it asked for when it was stored; and one
-- that was sent or failed is not pending again.
pub happen_all-IsSound :
    {W : Type 0} (deps : Deps W) (p : Pool W) (es : List (Event W)) (x y : System W)
    → IsValid x.shared.db
    → happen_all deps p es x ≡ some y
    → IsSound x.shared.db y.shared.db
happen_all-IsSound deps p es x y valid h =
    happen_all-keeps x.shared.db deps p es x y
      (record { valid = valid; grows = Grows-refl x.shared.db }) h
