-- ===== src/Together/Requests.antt =====
-- What a request on a route of internal/router/router.go does to the tables.
use pulse_notify.Prelude.{
  ℕ, ℤ, ◌≡◌, refl, sym, subst, inl, inr, Option, Option-cases, List, [], ◌∷◌, arith, Text, All,
}
use pulse_notify.Errors.{Sentinel, Result, ok, err, Result-cases}
use pulse_notify.Model.{Duration}
use pulse_notify.External.{Redis, UuidPackage}
use pulse_notify.State.{Db, State}
use pulse_notify.Auth.{JwtPackage, TokenManager}
use pulse_notify.Cache.{incr_with_window}
use pulse_notify.Http.{GinContext, HandlerFunc}
use pulse_notify.Middleware.RateLimit.{rate_limit}
use pulse_notify.Middleware.Access.{jwt_auth, require_role, guarded, user_id_from_context}
use pulse_notify.Middleware.Guards.{guarded_next, guarded_abort, jwt_auth-Judged}
use pulse_notify.Service.Accounts.{AuthService, AuthResult}
use pulse_notify.Service.Tables.{login-Has, refresh-Has, logout-Has, get_profile-Has, signup-keeps}
use pulse_notify.Service.Tables.Lists.{get-Has, list_for_user-Has, list_all-Has, enqueue-keeps}
use pulse_notify.Handler.Accounts.{
  signup_handler, login_handler, refresh_handler, logout_handler, me, token_reply,
}
use pulse_notify.Handler.Notifications
use pulse_notify.Handler.Limits.{parse_limit}
use pulse_notify.Handler.Health.{check}
use pulse_notify.Router.{
  Deps, Route, Group, open_group, protected_group, admin_group, get_health, post_signup, post_login,
  post_refresh, post_logout, get_me, post_notifications, get_notifications, get_notification,
  get_admin_notifications, handler_of, limiter, jwt_middleware, group_middleware, group_of, serve,
  admin_role,
}
use pulse_notify.Together.{IsKept}

module _ {W : Type 0} where
  rate_limit-db :
      (cache : Option (Redis W)) (limit : ℤ) (window : Duration) (c : GinContext) (s : State W)
      → (rate_limit cache limit window c s).1.db ≡ s.db
  unfolding rate_limit incr_with_window
  rate_limit-db cache limit window c s = ground arith

  jwt_auth-db :
      (jwt : JwtPackage W) (tokens : TokenManager) (uuid : UuidPackage) (c : GinContext)
      (s : State W)
      → (jwt_auth jwt tokens uuid c s).1.db ≡ s.db
  jwt_auth-db jwt tokens uuid c s = elim (jwt_auth-Judged jwt tokens uuid c s) [
    | inl (same, refused) ↦ rw same refl
    | inr (id, claims, admitted, e) ↦ rw e refl
  ]

  require_role-db :
      (role : Text) (c : GinContext) (s : State W) → (require_role (role ∷ []) c s).1.db ≡ s.db
  unfolding require_role
  require_role-db role c s = ground arith

  token_reply-db :
      (svc : AuthService W) (status : ℕ) (known : Sentinel) (code : ℕ) (text failure : Text)
      (c : GinContext) (r : Result AuthResult × State W)
      → (token_reply svc status known code text failure c r).1.db ≡ r.1.db
  unfolding token_reply
  token_reply-db svc status known code text failure c (ok result, s) = refl
  token_reply-db svc status known code text failure c (err e, s) = refl

module _ {W : Type 0} (P : Db → Type 0) where
  -- The handler keeps the property.
  abbrev Keeps : HandlerFunc W → Type 0
  Keeps h = (c : GinContext) (s : State W) → P s.db → P (h c s).1.db

  guarded-Keeps :
      (ms : List (HandlerFunc W)) (h : HandlerFunc W)
      → All Keeps ms
      → Keeps h
      → Keeps (guarded ms h)
  unfolding guarded
  guarded-Keeps [] h all keep c s p = keep c s p
  guarded-Keeps (m ∷ ms) h all keep c s p = elim (Option-cases (m c s).0.response) [
    | inl passed ↦
        subst (λ (r : GinContext × State W). P r.1.db)
          (sym (guarded_next m ms h {c = c} {s = s} refl passed))
          (guarded-Keeps ms h all.1 keep (m c s).0 (m c s).1 (all.0 c s p))
    | inr (r, stopped) ↦
        subst (λ (r : GinContext × State W). P r.1.db)
          (sym (guarded_abort m ms h {c = c} {s = s} refl r stopped)) (all.0 c s p)
  ]

  module _ (deps : Deps W) (kept : IsKept W P) where
    handler_of-Keeps : (route : Route) → Keeps (handler_of deps route)
    unfolding handler_of check signup_handler login_handler refresh_handler logout_handler me
        Notifications.create Notifications.list Notifications.get Notifications.list_all
    handler_of-Keeps get_health c s p = p
    handler_of-Keeps post_signup c s p = elim (Result-cases (deps.bind_signup c.payload)) [
      | inr (e, bad) ↦ rw (bad, handler_of, signup_handler) p
      | inl (req, bound) ↦
          rw (bound, handler_of, signup_handler)
            (subst P (sym (search token_reply-db)) (
              signup-keeps deps.auth P (kept.by_user deps.auth.users) req.email req.password
                req.name s p))
    ]
    handler_of-Keeps post_login c s p = elim (Result-cases (deps.bind_login c.payload)) [
      | inr (e, bad) ↦ rw (bad, handler_of, login_handler) p
      | inl (req, bound) ↦
          rw (bound, handler_of, login_handler)
            (subst P (sym (search token_reply-db))
              (subst P (sym (login-Has deps.auth req.email req.password s)) p))
    ]
    handler_of-Keeps post_refresh c s p = elim (Result-cases (deps.bind_refresh c.payload)) [
      | inr (e, bad) ↦ rw (bad, handler_of, refresh_handler) p
      | inl (req, bound) ↦
          rw (bound, handler_of, refresh_handler)
            (subst P (sym (search token_reply-db))
              (subst P (sym (refresh-Has deps.auth req.refresh_token s)) p))
    ]
    handler_of-Keeps post_logout c s p = elim (Result-cases (deps.bind_refresh c.payload)) [
      | inr (e, bad) ↦ rw (bad, handler_of, logout_handler) p
      | inl (req, bound) ↦
          rw (bound, handler_of, logout_handler)
            (subst P (sym (logout-Has deps.auth req.refresh_token s)) p)
    ]
    handler_of-Keeps get_me c s p = elim (Option-cases (user_id_from_context c)) [
      | inl nobody ↦ rw (nobody, handler_of, me) p
      | inr (id, known) ↦
          rw (known, handler_of, me) (subst P (sym (get_profile-Has deps.auth id s)) p)
    ]
    handler_of-Keeps post_notifications c s p = elim (Option-cases (user_id_from_context c)) [
      | inl nobody ↦ rw (nobody, handler_of, Notifications.create) p
      | inr (id, known) ↦ elim (Result-cases (deps.bind_notification c.payload)) [
        | inr (e, bad) ↦ rw (known, handler_of, Notifications.create, bad) p
        | inl (req, bound) ↦
            rw (known, handler_of, Notifications.create, bound)
              (enqueue-keeps deps.notification P (kept.by_notification deps.notification.repo) id
                req.channel req.recipient req.subject req.body s p)
      ]
    ]
    handler_of-Keeps get_notifications c s p = elim (Option-cases (user_id_from_context c)) [
      | inl nobody ↦ rw (nobody, handler_of, Notifications.list) p
      | inr (id, known) ↦
          rw (known, handler_of, Notifications.list)
            (subst P (sym (list_for_user-Has deps.notification id (parse_limit c.query_limit) s)) p)
    ]
    handler_of-Keeps get_notification c s p = elim (Option-cases (user_id_from_context c)) [
      | inl nobody ↦ rw (nobody, handler_of, Notifications.get) p
      | inr (user_id, known) ↦ elim (Result-cases (deps.notification.uuid.parse c.param_id)) [
        | inr (e, bad) ↦ rw (known, handler_of, Notifications.get, bad) p
        | inl (id, parsed) ↦
            rw (known, handler_of, Notifications.get, parsed)
              (subst P (sym (get-Has deps.notification id s)) p)
      ]
    ]
    handler_of-Keeps get_admin_notifications c s p =
        subst P (sym (list_all-Has deps.notification (parse_limit c.query_limit) s)) p

    limiter-Keeps : Keeps (limiter deps)
    limiter-Keeps c s p =
        subst P (sym (rate_limit-db deps.cache deps.rate_limit_requests deps.rate_limit_window c s))
          p

    jwt-Keeps : Keeps (jwt_middleware deps)
    jwt-Keeps c s p =
        subst P (sym (jwt_auth-db deps.jwt deps.token_manager deps.uuid_package c s)) p

    role-Keeps : Keeps (require_role (admin_role ∷ []))
    role-Keeps c s p = subst P (sym (require_role-db admin_role c s)) p

    group_middleware-Keeps : (group : Group) → All Keeps (group_middleware deps group)
    group_middleware-Keeps open_group = tt
    group_middleware-Keeps protected_group = (jwt-Keeps, tt)
    group_middleware-Keeps admin_group = (jwt-Keeps, (role-Keeps, tt))

    -- A request on any route keeps what the writes of the repositories keep.
    pub serve-Keeps :
        (route : Route) (c : GinContext) (s : State W) → P s.db → P (serve deps route c s).1.db
    unfolding serve
    serve-Keeps route =
        guarded-Keeps (limiter deps ∷ group_middleware deps (group_of route))
          (handler_of deps route) (limiter-Keeps, group_middleware-Keeps (group_of route))
          (handler_of-Keeps route)
