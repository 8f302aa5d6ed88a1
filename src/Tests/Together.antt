-- ===== src/Tests/Together.antt =====
-- The theorem on the API and the pool together at a concrete input.
use pulse_notify.Prelude.{
  Option, none, ℕ, ◌≡◌, refl, some, List, [], ◌∷◌, length, codes, wrap64, ◌+ℤ◌, to_lower,
  trim_space, text_eq,
}
use pulse_notify.Errors.{ok, errors_is, has_pg_code}
use pulse_notify.Router.{Deps, post_notifications, post_signup, get_notifications, serve}
use pulse_notify.Worker.Pool.{persist}
use pulse_notify.Worker.Steps.{move}
use pulse_notify.Worker.System.{System, dispatches, hands_over, works, system_start}
use pulse_notify.Together.Sound.{
  Event, requests, takes_turn, happen_all, IsSound, happen_all-IsSound,
}
use pulse_notify.Middleware.RateLimit.{rate_limit, judge}
use pulse_notify.Middleware.Access.{jwt_auth, split_space, is_bearer}
use pulse_notify.Auth.{parse, key_for}
use pulse_notify.Cache.{incr_with_window, delete, set}
use pulse_notify.Service.Notifications.{invalidate_user_cache}
use pulse_notify.Handler.Accounts.{signup_handler}
use pulse_notify.Handler.Notifications as HandlerNotifications
use pulse_notify.Repository.Users
use pulse_notify.Repository.Notifications
use pulse_notify.Database.{user_violation, notification_violation}
use pulse_notify.Tests.World.{Outside, start}
use pulse_notify.Tests.Middleware.{request}
use pulse_notify.Tests.Repository.{db-IsValid}
use pulse_notify.Tests.Router.{deps}
use pulse_notify.Tests.System.{twice}

-- A request is bound to a text message, and a signup to Bob.
abbrev bound : Deps Outside
bound = record deps {
  bind_signup = λ body.
      ok (record {
        email = codes "bob@example.org";
        password = codes "12345678";
        name = codes "Bob";
      });
  bind_notification = λ body. ok (record {
    channel = codes "sms";
    recipient = codes "5550100";
    subject = [];
    body = codes "Hello";
  });
}

-- A worker delivers the first message between requests.
abbrev events : List (Event Outside)
events =
    takes_turn dispatches
    ∷ requests post_notifications request
    ∷ takes_turn hands_over
    ∷ takes_turn (works 0)
    ∷ requests post_signup request
    ∷ takes_turn (works 0)
    ∷ takes_turn (works 0)
    ∷ requests get_notifications request
    ∷ takes_turn (works 0)
    ∷ []

end : (y : System Outside) × (happen_all bound twice events (system_start 1 start) ≡ some y)
unfolding happen_all serve move persist wrap64 ◌+ℤ◌ errors_is rate_limit incr_with_window judge
    signup_handler Users.create user_violation to_lower trim_space jwt_auth text_eq split_space
    is_bearer parse key_for HandlerNotifications.create Notifications.create notification_violation
    has_pg_code invalidate_user_cache delete set
end = (_, refl)

abbrev rows_of : Option (System Outside) → ℕ × ℕ
rows_of none = (0, 0)
rows_of (some y) = (length y.shared.db.users, length y.shared.db.notifications)

-- A request adds a notification.
end_rows :
    rows_of
      (happen_all bound twice (requests post_notifications request ∷ []) (system_start 1 start))
    ≡ (1, 3)
unfolding happen_all serve move persist wrap64 ◌+ℤ◌ errors_is rate_limit incr_with_window judge
    signup_handler Users.create user_violation to_lower trim_space jwt_auth text_eq split_space
    is_bearer parse key_for HandlerNotifications.create Notifications.create notification_violation
    has_pg_code invalidate_user_cache delete set
end_rows = refl

happen_all-IsSound_example : IsSound start.db end.0.shared.db
happen_all-IsSound_example =
    happen_all-IsSound bound twice events (system_start 1 start) end.0 db-IsValid end.1
