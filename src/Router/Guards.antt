-- ===== src/Router/Guards.antt =====
-- Who gets through to the handlers of internal/router/router.go.
use pulse_notify.Prelude.{◌≡◌, ◌≢◌, refl, sym, subst, ◌⊎◌, inl, inr, none, some, [], ◌∷◌}
use pulse_notify.Model.{Uuid}
use pulse_notify.State.{State}
use pulse_notify.Auth.{Claims}
use pulse_notify.Http.{GinContext, Response}
use pulse_notify.Middleware.RateLimit.{too_many, rate_limit-response}
use pulse_notify.Middleware.Access.{with_claims, guarded}
use pulse_notify.Middleware.Guards.{
  Admits, guarded_next, guarded_abort, jwt_auth-Judged, role_chain-guards,
}
use pulse_notify.Router.{
  Deps, Route, Group, open_group, protected_group, admin_group, group_of, admin_role, handler_of,
  limiter, jwt_middleware, group_middleware, serve,
}

module _ {W : Type 0} (deps : Deps W) (route : Route) (c : GinContext) (s : State W)
    (open_ctx : c.response ≡ none) where
  -- What the limiter hands on.
  abbrev pub limited_ctx : GinContext
  limited_ctx = (limiter deps c s).0

  abbrev pub limited_state : State W
  limited_state = (limiter deps c s).1

  -- The claims that a group wants.
  abbrev pub Entitled : Group → Claims → Type 0
  Entitled admin_group claims = claims.role ≡ admin_role
  Entitled _ claims = Unit

  -- A request ends before the handler, or its token admits it to the group and the handler runs.
  abbrev pub Guarded : Group → GinContext × State W → Type 0
  Guarded group r =
      ((r.1 ≡ limited_state)
        × (x : Response) × (r.0.response ≡ some x)
        × ((x ≡ too_many) ⊎ ((x.status ≡ 401) ⊎ (x.status ≡ 403))))
      ⊎ ((id : Uuid) × (claims : Claims) × Admits deps.jwt deps.token_manager deps.uuid_package
            limited_ctx limited_state id claims
          × Entitled group claims
          × (r ≡ handler_of deps route (with_claims id claims limited_ctx) limited_state))

  token_chain :
      limited_ctx.response ≡ none
      → Guarded protected_group
          (guarded (jwt_middleware deps ∷ []) (handler_of deps route) limited_ctx limited_state)
  unfolding guarded
  token_chain passed =
      elim (jwt_auth-Judged deps.jwt deps.token_manager deps.uuid_package limited_ctx
        limited_state) [
          | inl (same, (x, written, code)) ↦
              rw
                (guarded_abort (jwt_middleware deps) [] (handler_of deps route) {c = limited_ctx}
                  {s = limited_state} refl x written)
                (inl (same, x, written, inr code))
          | inr (id, claims, admitted, e) ↦ inr (
            id,
            claims,
            admitted,
            tt,
            guarded_next (jwt_middleware deps) [] (handler_of deps route) e passed,
          )
        ]

  group_chain :
      (group : Group)
      → group ≢ open_group
      → limited_ctx.response ≡ none
      → Guarded group
          (guarded (group_middleware deps group) (handler_of deps route) limited_ctx limited_state)
  group_chain open_group closed passed = absurd (closed refl)
  group_chain protected_group closed passed = token_chain passed
  group_chain admin_group closed passed =
      elim (role_chain-guards deps.jwt deps.token_manager deps.uuid_package admin_role
        (handler_of deps route) limited_ctx limited_state passed) [
          | inl (same, (x, written, code)) ↦ inl (same, x, written, inr code)
          | inr (id, claims, admitted, role, e) ↦ inr (id, claims, admitted, role, e)
        ]

  -- On a route of the groups `protected` and `admin`, either the request is answered with 429, 401
  -- or 403 and changes nothing but what the limiter did, or its token parses to claims that name a
  -- user, with the role admin in the second group, and the handler runs with this user and role in
  -- its context.
  pub serve-Guarded : group_of route ≢ open_group → Guarded (group_of route) (serve deps route c s)
  unfolding serve
  serve-Guarded closed =
      elim (rate_limit-response deps.cache deps.rate_limit_requests deps.rate_limit_window c s
        open_ctx) [
          | inl passed ↦
              subst (Guarded (group_of route))
                (sym (
                  guarded_next (limiter deps) (group_middleware deps (group_of route))
                    (handler_of deps route) {c = c} {s = s} refl passed))
                (group_chain (group_of route) closed passed)
          | inr stopped ↦
              subst (Guarded (group_of route))
                (sym (
                  guarded_abort (limiter deps) (group_middleware deps (group_of route))
                    (handler_of deps route) {c = c} {s = s} refl too_many stopped))
                (inl (refl, too_many, stopped, inl refl))
        ]
