-- ===== src/Tests/Handler.antt =====
-- The theorems on the handlers of notifications and health at concrete inputs.
use pulse_notify.Prelude.{ℕ, ◌≡◌, refl, inr, none, some, [], ◌∷◌, arith, text_eq}
use pulse_notify.Model.{notification_to_response}
use pulse_notify.Http.{GinContext, Response, notification_body}
use pulse_notify.Repository.Notifications
use pulse_notify.Service
use pulse_notify.Handler.Notifications.{get, not_found}
use pulse_notify.Handler.Owner.{get_hides}
use pulse_notify.Handler.Health.{HealthHandler}
use pulse_notify.Tests.World.{Outside, clock, pg, row, start, uuid}
use pulse_notify.Tests.Middleware.{request}
use pulse_notify.Tests.Service.{service}

abbrev asks : ℕ → ℕ → GinContext
asks user_id id = record request { user_id = some user_id; param_id = id ∷ [] }

abbrev shown : Response
shown = record {
  status = 200;
  body = notification_body (notification_to_response uuid.to_text (row 7 3));
}

own_row : (get service (asks 1 7) start).0.response ≡ some shown
unfolding get Service.Notifications.get Notifications.find_by_id notification_to_response text_eq
own_row = refl

get_hides_example : (get service (asks 2 7) start).0 ≡ not_found (asks 2 7)
get_hides_example =
    get_hides service (asks 2 7) start 2 refl 7 refl refl
      (inr (row 7 3, refl, λ e. omega (arith, e)))

abbrev pub health : HealthHandler Outside
health = record { started_at = 0; db = some pg; cache = none; clock = clock }
