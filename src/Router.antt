-- ===== src/Router.antt =====
-- internal/router/router.go: the routes with their handlers and middleware; the request logger is
-- in Logging. gin's matching of a request to a route and its recovery from panics are left out.
pub mod Guards
pub mod Owner
pub mod Logging
pub mod Replies
pub mod Answers
use pulse_notify.Prelude.{ℕ, ℤ, Option, List, [], ◌∷◌, ◌++◌, Text, codes}
use pulse_notify.Model.{Duration}
use pulse_notify.External.{Redis, UuidPackage}
use pulse_notify.State.{State}
use pulse_notify.Auth.{JwtPackage, TokenManager}
use pulse_notify.Http.{GinContext, HandlerFunc, Bind}
use pulse_notify.Middleware.RateLimit.{rate_limit}
use pulse_notify.Middleware.Access.{jwt_auth, require_role, guarded}
use pulse_notify.Service.Accounts.{AuthService}
use pulse_notify.Service.Notifications.{NotificationService}
use pulse_notify.Handler.Accounts.{
  SignupRequest, LoginRequest, RefreshRequest, signup_handler, login_handler, refresh_handler,
  logout_handler, me,
}
use pulse_notify.Handler.Notifications
use pulse_notify.Handler.Notifications.{CreateNotificationRequest}
use pulse_notify.Handler.Health.{HealthHandler, check}

-- The dependencies, the two settings of the limiter, and gin's binding of the requests.
pub record Deps (W : Type 0) : Type 0 where
  pub cache : Option (Redis W)
  pub rate_limit_requests : ℤ
  pub rate_limit_window : Duration
  pub jwt : JwtPackage W
  pub token_manager : TokenManager
  pub uuid_package : UuidPackage
  pub health : HealthHandler W
  pub auth : AuthService W
  pub notification : NotificationService W
  pub bind_signup : Bind SignupRequest
  pub bind_login : Bind LoginRequest
  pub bind_refresh : Bind RefreshRequest
  pub bind_notification : Bind CreateNotificationRequest

pub data Route : Type 0 where
  get_health : Route
  post_signup post_login post_refresh post_logout : Route
  get_me post_notifications get_notifications get_notification : Route
  get_admin_notifications : Route

-- The groups of routes: open ones, `protected` and `admin`.
pub data Group : Type 0 where
  open_group protected_group admin_group : Group

abbrev pub group_of : Route → Group
group_of get_me = protected_group
group_of post_notifications = protected_group
group_of get_notifications = protected_group
group_of get_notification = protected_group
group_of get_admin_notifications = admin_group
group_of _ = open_group

abbrev pub admin_role : Text
admin_role = codes "admin"

module _ {W : Type 0} (deps : Deps W) where
  unfoldable pub handler_of : Route → HandlerFunc W
  handler_of get_health = check deps.health
  handler_of post_signup = signup_handler deps.auth deps.bind_signup
  handler_of post_login = login_handler deps.auth deps.bind_login
  handler_of post_refresh = refresh_handler deps.auth deps.bind_refresh
  handler_of post_logout = logout_handler deps.auth deps.bind_refresh
  handler_of get_me = me deps.auth
  handler_of post_notifications = Notifications.create deps.notification deps.bind_notification
  handler_of get_notifications = Notifications.list deps.notification
  handler_of get_notification = Notifications.get deps.notification
  handler_of get_admin_notifications = Notifications.list_all deps.notification

  abbrev pub limiter : HandlerFunc W
  limiter = rate_limit deps.cache deps.rate_limit_requests deps.rate_limit_window

  abbrev pub jwt_middleware : HandlerFunc W
  jwt_middleware = jwt_auth deps.jwt deps.token_manager deps.uuid_package

  abbrev pub group_middleware : Group → List (HandlerFunc W)
  group_middleware open_group = []
  group_middleware protected_group = jwt_middleware ∷ []
  group_middleware admin_group = jwt_middleware ∷ require_role (admin_role ∷ []) ∷ []

  -- A request on a route, behind the limiter and the middleware of its group.
  unfoldable pub serve : Route → HandlerFunc W
  unfolding guarded handler_of
  serve route = guarded (limiter ∷ group_middleware (group_of route)) (handler_of route)
