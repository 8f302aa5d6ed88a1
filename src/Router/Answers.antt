-- ===== src/Router/Answers.antt =====
-- What the API answers on each route of internal/router/router.go: the handlers of
-- internal/handler behind the middleware.
use pulse_notify.Prelude.{
  ℕ, ℤ, ◌≡◌, refl, sym, subst, inl, inr, Bool, true, Option, none, some, Option-cases, List, [],
  ◌∷◌, arith, Text, All,
}
use pulse_notify.Model.{Duration}
use pulse_notify.External.{Redis, UuidPackage}
use pulse_notify.State.{State}
use pulse_notify.Auth.{JwtPackage, TokenManager}
use pulse_notify.Http.{GinContext, HandlerFunc, Response}
use pulse_notify.Middleware.RateLimit.{rate_limit, rate_limit-response}
use pulse_notify.Middleware.Access.{jwt_auth, require_role, guarded}
use pulse_notify.Middleware.Guards.{guarded_next, guarded_abort}
use pulse_notify.Router.{
  Deps, Route, get_health, post_signup, post_login, post_refresh, post_logout, get_me,
  post_notifications, get_notifications, get_notification, get_admin_notifications, handler_of,
  limiter, jwt_middleware, group_middleware, group_of, serve, admin_role,
}
use pulse_notify.Router.Replies.{one_of, answers, statuses, Answers, handler_of-Answers}

-- No response is written, or one with one of the statuses.
abbrev passes : List ℕ → Option Response → Bool
passes codes none = true
passes codes (some r) = one_of codes r.status

module _ {W : Type 0} (codes : List ℕ) where
  abbrev Passes : HandlerFunc W → Type 0
  Passes m =
      (c : GinContext) (s : State W) → c.response ≡ none → passes codes (m c s).0.response ≡ true

  guarded-Answers :
      (ms : List (HandlerFunc W)) (h : HandlerFunc W) (c : GinContext) (s : State W)
      → All Passes ms
      → Answers codes h
      → c.response ≡ none
      → answers codes (guarded ms h c s).0.response ≡ true
  unfolding guarded
  guarded-Answers [] h c s all good fresh = good c s
  guarded-Answers (m ∷ ms) h c s all good fresh = elim (Option-cases (m c s).0.response) [
    | inl passed ↦
        subst (λ (r : GinContext × State W). answers codes r.0.response ≡ true)
          (sym (guarded_next m ms h {c = c} {s = s} refl passed))
          (guarded-Answers ms h (m c s).0 (m c s).1 all.1 good passed)
    | inr (r, stopped) ↦
        let known = all.0 c s fresh in
        subst (λ (r : GinContext × State W). answers codes r.0.response ≡ true)
          (sym (guarded_abort m ms h {c = c} {s = s} refl r stopped)) (rw stopped (ground arith))
  ]

  rate_limit-Passes :
      (cache : Option (Redis W)) (limit : ℤ) (window : Duration)
      → one_of codes 429 ≡ true
      → Passes (rate_limit cache limit window)
  rate_limit-Passes cache limit window h c s fresh =
      elim (rate_limit-response cache limit window c s fresh) [
        | inl passed ↦ rw passed refl
        | inr stopped ↦ rw stopped h
      ]

  jwt_auth-Passes :
      (jwt : JwtPackage W) (tokens : TokenManager) (uuid : UuidPackage)
      → one_of codes 401 ≡ true
      → Passes (jwt_auth jwt tokens uuid)
  unfolding jwt_auth
  jwt_auth-Passes jwt tokens uuid h c s fresh = ground arith

  require_role-Passes :
      (role : Text)
      → one_of codes 401 ≡ true
      → one_of codes 403 ≡ true
      → Passes (require_role (role ∷ []))
  unfolding require_role
  require_role-Passes role h k c s fresh = ground arith

module _ {W : Type 0} (deps : Deps W) where
  limited :
      (route : Route) → one_of (statuses route) 429 ≡ true → Passes (statuses route) (limiter deps)
  limited route =
      rate_limit-Passes (statuses route) deps.cache deps.rate_limit_requests deps.rate_limit_window

  identified :
      (route : Route)
      → one_of (statuses route) 401 ≡ true
      → Passes (statuses route) (jwt_middleware deps)
  identified route = jwt_auth-Passes (statuses route) deps.jwt deps.token_manager deps.uuid_package

  group_middleware-Passes :
      (route : Route)
      → All (Passes (statuses route)) (limiter deps ∷ group_middleware deps (group_of route))
  group_middleware-Passes get_health = (limited get_health refl, tt)
  group_middleware-Passes post_signup = (limited post_signup refl, tt)
  group_middleware-Passes post_login = (limited post_login refl, tt)
  group_middleware-Passes post_refresh = (limited post_refresh refl, tt)
  group_middleware-Passes post_logout = (limited post_logout refl, tt)
  group_middleware-Passes get_me = (limited get_me refl, (identified get_me refl, tt))
  group_middleware-Passes post_notifications =
      (limited post_notifications refl, (identified post_notifications refl, tt))
  group_middleware-Passes get_notifications =
      (limited get_notifications refl, (identified get_notifications refl, tt))
  group_middleware-Passes get_notification =
      (limited get_notification refl, (identified get_notification refl, tt))
  group_middleware-Passes get_admin_notifications = (
    limited get_admin_notifications refl,
    (
      identified get_admin_notifications refl,
      (require_role-Passes (statuses get_admin_notifications) admin_role refl refl, tt),
    ),
  )

  -- On each route a request that is not answered yet is answered, with one of the statuses of
  -- the route, whatever the services do.
  pub serve-answers :
      (route : Route) (c : GinContext) (s : State W)
      → c.response ≡ none
      → answers (statuses route) (serve deps route c s).0.response ≡ true
  unfolding serve
  serve-answers route c s fresh =
      guarded-Answers (statuses route) (limiter deps ∷ group_middleware deps (group_of route))
        (handler_of deps route) c s (group_middleware-Passes route) (handler_of-Answers deps route)
        fresh
