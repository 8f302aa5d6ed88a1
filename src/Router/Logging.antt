-- ===== src/Router/Logging.antt =====
-- The rest of internal/router/router.go: gin's mode, the request logger around the other
-- middleware, and the table of routes. What slog writes of an entry is not modelled.
use pulse_notify.Prelude.{
  ℕ, ◌/◌, ◌-◌, ◌+◌, ◌≡◌, refl, sym, ap, ◌∙◌, ℤ, pos, negsuc, ◌-ℤ◌, Bool, ◌&&◌, Option, none, some,
  List, [], ◌∷◌, find?, if◌then◌else◌, leb, Text, codes, text_eq,
}
use pulse_notify.Model.{Instant, Duration}
use pulse_notify.External.{Clock}
use pulse_notify.State.{State}
use pulse_notify.Config.{Config, is_development}
use pulse_notify.Http.{GinContext, HandlerFunc, Response}
use pulse_notify.Router.{
  Deps, Route, get_health, post_signup, post_login, post_refresh, post_logout, get_me,
  post_notifications, get_notifications, get_notification, get_admin_notifications, serve,
}

-- The modes of gin that New leaves.
pub data Mode : Type 0 where
  debug_mode release_mode : Mode

abbrev pub mode_of : Config → Mode
mode_of cfg = if is_development cfg then debug_mode else release_mode

-- The method and the full path under which a handler is registered.
unfoldable pub method_of : Route → Text
method_of post_signup = codes "POST"
method_of post_login = codes "POST"
method_of post_refresh = codes "POST"
method_of post_logout = codes "POST"
method_of post_notifications = codes "POST"
method_of _ = codes "GET"

unfoldable pub path_of : Route → Text
path_of get_health = codes "/health"
path_of post_signup = codes "/api/v1/auth/signup"
path_of post_login = codes "/api/v1/auth/login"
path_of post_refresh = codes "/api/v1/auth/refresh"
path_of post_logout = codes "/api/v1/auth/logout"
path_of get_me = codes "/api/v1/me"
path_of post_notifications = codes "/api/v1/notifications"
path_of get_notifications = codes "/api/v1/notifications"
path_of get_notification = codes "/api/v1/notifications/:id"
path_of get_admin_notifications = codes "/api/v1/admin/notifications"

-- The attributes of log.Info("http request", …).
pub record LogEntry : Type 0 where
  pub method : Text
  pub path : Text
  pub status : ℕ
  pub latency_ms : ℤ
  pub client_ip : Text

-- c.Writer.Status(): 200 until a response is written.
abbrev pub writer_status : Option Response → ℕ
writer_status none = 200
writer_status (some r) = r.status

-- (d Duration) Milliseconds, towards zero.
abbrev pub milliseconds : Duration → ℤ
milliseconds (pos n) = pos (n / 1000000)
milliseconds (negsuc n) = if leb 1000000 (n + 1) then negsuc ((n + 1) / 1000000 - 1) else pos 0

-- timeSinceMs, at the instant `now`; a difference beyond the range of a Duration does not occur.
abbrev pub time_since_ms : Instant → Instant → ℤ
time_since_ms start now = milliseconds (pos now -ℤ pos start)

module _ {W : Type 0} (clock : Clock W) where
  -- requestLogger around the rest of the chain: its entry, and what the chain does.
  unfoldable pub request_logger :
      Route → HandlerFunc W → GinContext → State W → LogEntry × (GinContext × State W)
  unfolding method_of path_of
  request_logger route next c s =
      let (start, w) = clock s.world in
      let r = next c (record s { world = w }) in
      let (now, w1) = clock r.1.world in
      (
        record {
          method = method_of route;
          path = path_of route;
          status = writer_status r.0.response;
          latency_ms = time_since_ms start now;
          client_ip = r.0.client_ip;
        },
        (r.0, record r.1 { world = w1 }),
      )

  -- New: the mode, and what the engine does with a request on a route.
  unfoldable pub new :
      Config → Deps W → Mode × (Route → GinContext → State W → LogEntry × (GinContext × State W))
  unfolding request_logger serve
  new cfg deps = (mode_of cfg, λ route. request_logger route (serve deps route))

abbrev pub all_routes : List Route
all_routes =
    get_health ∷ post_signup ∷ post_login ∷ post_refresh ∷ post_logout ∷ get_me ∷ post_notifications
    ∷ get_notifications ∷ get_notification ∷ get_admin_notifications ∷ []

abbrev is_at : Text → Text → Route → Bool
is_at method path route = text_eq (method_of route) method && text_eq (path_of route) path

route_at_own :
    (route : Route) → find? (is_at (method_of route) (path_of route)) all_routes ≡ some route
unfolding method_of path_of text_eq
route_at_own get_health = refl
route_at_own post_signup = refl
route_at_own post_login = refl
route_at_own post_refresh = refl
route_at_own post_logout = refl
route_at_own get_me = refl
route_at_own post_notifications = refl
route_at_own get_notifications = refl
route_at_own get_notification = refl
route_at_own get_admin_notifications = refl

-- No two routes are registered under the same method and path, which gin would refuse with a panic,
-- so a log entry of the router tells the route.
pub routes_differ : (a b : Route) → method_of a ≡ method_of b → path_of a ≡ path_of b → a ≡ b
routes_differ a b m p =
    let e : some a ≡ some b =
      sym (route_at_own a)
      ∙ ap (λ t. find? (is_at t (path_of a)) all_routes) m
      ∙ ap (λ t. find? (is_at (method_of b) t) all_routes) p
      ∙ route_at_own b in
    cc
