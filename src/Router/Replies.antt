-- ===== src/Router/Replies.antt =====
-- What the handlers of the routes of internal/router/router.go answer.
use pulse_notify.Prelude.{
  ℕ, ◌≡◌, refl, inl, inr, Bool, true, false, Option, none, some, Option-cases, List, [], ◌∷◌, any,
  ◌==◌, ◌&&◌, Text, text_eq, Bool-cases,
}
use pulse_notify.Errors.{
  Sentinel, Result, ok, err, Result-cases, errors_is, user_not_found, notification_not_found,
}
use pulse_notify.Model.{Uuid, UserResponse, NotificationResponse}
use pulse_notify.State.{State}
use pulse_notify.Http.{GinContext, HandlerFunc, Response}
use pulse_notify.Middleware.Access.{user_id_from_context}
use pulse_notify.Service.Accounts.{AuthService, AuthResult, logout, get_profile}
use pulse_notify.Service.Notifications.{NotificationService, enqueue, list_for_user}
use pulse_notify.Service.Notifications as Service
use pulse_notify.Handler.Accounts.{
  signup_handler, login_handler, refresh_handler, logout_handler, me, token_reply, logout_response,
  profile_response,
}
use pulse_notify.Handler.Notifications as HandlerNotifications
use pulse_notify.Handler.Notifications.{list_response, create_response, get_response}
use pulse_notify.Handler.Limits.{parse_limit}
use pulse_notify.Handler.Health.{check, db_probe, redis_probe, is_fine}
use pulse_notify.Router.{
  Deps, Route, get_health, post_signup, post_login, post_refresh, post_logout, get_me,
  post_notifications, get_notifications, get_notification, get_admin_notifications, handler_of,
}

abbrev pub one_of : List ℕ → ℕ → Bool
one_of codes status = any (λ (k : ℕ). k == status) codes

-- A response is written, with one of the statuses.
abbrev pub answers : List ℕ → Option Response → Bool
answers codes none = false
answers codes (some r) = one_of codes r.status

-- The statuses of each route.
abbrev pub statuses : Route → List ℕ
statuses get_health = 200 ∷ 503 ∷ 429 ∷ []
statuses post_signup = 201 ∷ 400 ∷ 409 ∷ 500 ∷ 429 ∷ []
statuses post_login = 200 ∷ 400 ∷ 401 ∷ 500 ∷ 429 ∷ []
statuses post_refresh = 200 ∷ 400 ∷ 401 ∷ 500 ∷ 429 ∷ []
statuses post_logout = 200 ∷ 400 ∷ 500 ∷ 429 ∷ []
statuses get_me = 200 ∷ 401 ∷ 404 ∷ 500 ∷ 429 ∷ []
statuses post_notifications = 202 ∷ 400 ∷ 401 ∷ 500 ∷ 429 ∷ []
statuses get_notifications = 200 ∷ 401 ∷ 500 ∷ 429 ∷ []
statuses get_notification = 200 ∷ 400 ∷ 401 ∷ 404 ∷ 500 ∷ 429 ∷ []
statuses get_admin_notifications = 200 ∷ 401 ∷ 403 ∷ 500 ∷ 429 ∷ []

module _ {W : Type 0} (codes : List ℕ) where
  -- The handler answers every request with one of the statuses.
  abbrev pub Answers : HandlerFunc W → Type 0
  Answers h = (c : GinContext) (s : State W) → answers codes (h c s).0.response ≡ true

  token_reply-answers :
      (svc : AuthService W) (status : ℕ) (known : Sentinel) (code : ℕ) (text failure : Text)
      (c : GinContext) (r : Result AuthResult × State W)
      → one_of codes status ≡ true
      → one_of codes code ≡ true
      → one_of codes 500 ≡ true
      → answers codes (token_reply svc status known code text failure c r).0.response ≡ true
  unfolding token_reply
  token_reply-answers svc status known code text failure c (ok result, s) a b d = a
  token_reply-answers svc status known code text failure c (err e, s) a b d =
      elim (Bool-cases (errors_is e known)) [ inl is ↦ rw is b | inr other ↦ rw other d ]

abbrev Allowed : Route → GinContext → Type 0
Allowed route c = answers (statuses route) c.response ≡ true

list_response-Allowed :
    (r : Result (List NotificationResponse)) (c : GinContext)
    → Allowed get_notifications (list_response r c)
      × Allowed get_admin_notifications (list_response r c)
list_response-Allowed (ok items) c = (refl, refl)
list_response-Allowed (err e) c = (refl, refl)

logout_response-Allowed :
    {W : Type 0} (svc : AuthService W) (r : Result (Unit {0})) (c : GinContext)
    → Allowed post_logout (logout_response svc r c)
logout_response-Allowed svc (ok u) c = refl
logout_response-Allowed svc (err e) c = refl

create_response-Allowed :
    (r : Result NotificationResponse) (c : GinContext)
    → Allowed post_notifications (create_response r c)
create_response-Allowed (ok u) c = refl
create_response-Allowed (err e) c = refl

profile_response-Allowed :
    {W : Type 0} (svc : AuthService W) (r : Result UserResponse) (c : GinContext)
    → Allowed get_me (profile_response svc r c)
profile_response-Allowed svc (ok u) c = refl
profile_response-Allowed svc (err e) c = elim (Bool-cases (errors_is e user_not_found)) [
  | inl is ↦ rw is refl
  | inr other ↦ rw other refl
]

get_response-Allowed :
    (t : Uuid → Text) (u : Uuid) (r : Result NotificationResponse) (c : GinContext)
    → Allowed get_notification (get_response t u r c)
get_response-Allowed t u (ok n) c = elim (Bool-cases (text_eq n.user_id (t u))) [
  | inl is ↦ rw is refl
  | inr other ↦ rw other refl
]
get_response-Allowed t u (err e) c = elim (Bool-cases (errors_is e notification_not_found)) [
  | inl is ↦ rw is refl
  | inr other ↦ rw other refl
]

module _ {W : Type 0} (deps : Deps W) where
  pub handler_of-Answers : (route : Route) → Answers (statuses route) (handler_of deps route)
  unfolding handler_of check signup_handler login_handler refresh_handler logout_handler me
      HandlerNotifications.create HandlerNotifications.list HandlerNotifications.get
      HandlerNotifications.list_all
  handler_of-Answers get_health c s =
      elim (Bool-cases (
        is_fine (db_probe deps.health s.world).0
        && is_fine (redis_probe deps.health (db_probe deps.health s.world).1).0)) [
          | inl is ↦ rw (is, answers, handler_of, check) refl
          | inr other ↦ rw (other, answers, handler_of, check) refl
        ]
  handler_of-Answers post_signup c s = elim (Result-cases (deps.bind_signup c.payload)) [
    | inl (req, bound) ↦
        rw (bound, answers, handler_of, signup_handler) (search token_reply-answers)
    | inr (e, bad) ↦ rw (bad, answers, handler_of, signup_handler) refl
  ]
  handler_of-Answers post_login c s = elim (Result-cases (deps.bind_login c.payload)) [
    | inl (req, bound) ↦ rw (bound, answers, handler_of, login_handler) (search token_reply-answers)
    | inr (e, bad) ↦ rw (bad, answers, handler_of, login_handler) refl
  ]
  handler_of-Answers post_refresh c s = elim (Result-cases (deps.bind_refresh c.payload)) [
    | inl (req, bound) ↦
        rw (bound, answers, handler_of, refresh_handler) (search token_reply-answers)
    | inr (e, bad) ↦ rw (bad, answers, handler_of, refresh_handler) refl
  ]
  handler_of-Answers post_logout c s = elim (Result-cases (deps.bind_refresh c.payload)) [
    | inl (req, bound) ↦
        rw (bound, answers, handler_of, logout_handler)
          (logout_response-Allowed deps.auth (logout deps.auth req.refresh_token s).0 c)
    | inr (e, bad) ↦ rw (bad, answers, handler_of, logout_handler) refl
  ]
  handler_of-Answers get_me c s = elim (Option-cases (user_id_from_context c)) [
    | inl nobody ↦ rw (nobody, answers, handler_of, me) refl
    | inr (id, known) ↦
        rw (known, answers, handler_of, me)
          (profile_response-Allowed deps.auth (get_profile deps.auth id s).0 c)
  ]
  handler_of-Answers post_notifications c s = elim (Option-cases (user_id_from_context c)) [
    | inl nobody ↦ rw (nobody, answers, handler_of, HandlerNotifications.create) refl
    | inr (id, known) ↦ elim (Result-cases (deps.bind_notification c.payload)) [
      | inl (req, bound) ↦
          rw (known, bound, answers, handler_of, HandlerNotifications.create)
            (create_response-Allowed
              (enqueue deps.notification id req.channel req.recipient req.subject req.body s).0 c)
      | inr (e, bad) ↦ rw (known, bad, answers, handler_of, HandlerNotifications.create) refl
    ]
  ]
  handler_of-Answers get_notifications c s = elim (Option-cases (user_id_from_context c)) [
    | inl nobody ↦ rw (nobody, answers, handler_of, HandlerNotifications.list) refl
    | inr (id, known) ↦
        rw (known, answers, handler_of, HandlerNotifications.list)
          (list_response-Allowed
            (list_for_user deps.notification id (parse_limit c.query_limit) s).0 c).0
  ]
  handler_of-Answers get_notification c s = elim (Option-cases (user_id_from_context c)) [
    | inl nobody ↦ rw (nobody, answers, handler_of, HandlerNotifications.get) refl
    | inr (user_id, known) ↦ elim (Result-cases (deps.notification.uuid.parse c.param_id)) [
      | inl (id, parsed) ↦
          rw (known, parsed, answers, handler_of, HandlerNotifications.get)
            (get_response-Allowed deps.notification.uuid.to_text user_id
              (Service.get deps.notification id s).0 c)
      | inr (e, bad) ↦ rw (known, bad, answers, handler_of, HandlerNotifications.get) refl
    ]
  ]
  handler_of-Answers get_admin_notifications c s =
      (list_response-Allowed (Service.list_all deps.notification (parse_limit c.query_limit) s).0
        c).1
