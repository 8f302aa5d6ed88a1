-- ===== src/Router/Owner.antt =====
-- What the route GET /api/v1/notifications/:id of internal/router/router.go shows to whom.
use pulse_notify.Prelude.{
  ◌≡◌, refl, sym, ap, ◌∙◌, inl, inr, none, some, Option, find?, ◌==◌, arith, ℤ,
}
use pulse_notify.Errors.{Result, ok}
use pulse_notify.Model.{Uuid, Duration, Notification, notification_to_response}
use pulse_notify.External.{Redis}
use pulse_notify.State.{Db, State}
use pulse_notify.Auth.{Claims}
use pulse_notify.Http.{GinContext, Response, notification_body}
use pulse_notify.Cache.{incr_with_window}
use pulse_notify.Middleware.RateLimit.{rate_limit, judge}
use pulse_notify.Middleware.Access.{with_claims}
use pulse_notify.Middleware.Guards.{Admits}
use pulse_notify.Handler.Owner.{get-owner}
use pulse_notify.Router.{Deps, get_notification, handler_of, serve}
use pulse_notify.Router.Guards.{limited_ctx, limited_state, serve-Guarded}

-- The limiter leaves the path and the tables as they are.
rate_limit-keeps :
    {W : Type 0} (cache : Option (Redis W)) (limit : ℤ) (window : Duration) (c : GinContext)
    (s : State W)
    → ((rate_limit cache limit window c s).0.param_id ≡ c.param_id)
      × ((rate_limit cache limit window c s).0.authorization ≡ c.authorization)
      × ((rate_limit cache limit window c s).1.db ≡ s.db)
unfolding rate_limit judge incr_with_window
rate_limit-keeps cache limit window c s = (ground arith, ground arith, ground arith)

module _ {W : Type 0} (deps : Deps W) (c : GinContext) (s : State W)
    (open_ctx : c.response ≡ none) where
  -- The request names a user by its token, and the row of this user with the id of its path is
  -- stored and shown.
  pub record Owns (r : Response) : Type 0 where
    pub user_id : Uuid
    pub claims : Claims
    pub row : Notification
    pub admitted :
        Admits deps.jwt deps.token_manager deps.uuid_package
          (limited_ctx deps get_notification c s open_ctx)
          (limited_state deps get_notification c s open_ctx)
          user_id
          claims
    pub path : deps.notification.uuid.parse c.param_id ≡ ok row.id
    pub stored : find? (λ (m : Notification). m.id == row.id) s.db.notifications ≡ some row
    pub owner : row.user_id ≡ user_id
    pub shown :
        r.body ≡ notification_body (notification_to_response deps.notification.uuid.to_text row)

  -- The router answers a request for one notification with 200 only if its token parses to claims
  -- that name a user, and a row of this user with the id of the path is stored; the answer shows
  -- that row.
  pub serve-owner :
      (r : Response)
      → (serve deps get_notification c s).0.response ≡ some r
      → r.status ≡ 200
      → Owns r
  unfolding handler_of
  serve-owner r answered good = elim (serve-Guarded deps get_notification c s open_ctx (λ e. cc)) [
    | inl (same, x, written, code) ↦
        let seen : Option.some x ≡ some r = sym written ∙ answered in
        absurd (elim code [
          | inl q ↦ ground arith
          | inr (inl q) ↦ ground arith
          | inr (inr q) ↦ ground arith
        ])
    | inr (user_id, claims, admitted, entitled, e) ↦
        let ctx = limited_ctx deps get_notification c s open_ctx in
        let st = limited_state deps get_notification c s open_ctx in
        let (path, kept, tables) =
          rate_limit-keeps deps.cache deps.rate_limit_requests deps.rate_limit_window c s in
        let (id, n, parsed, found, same, owner, shown) =
          get-owner deps.notification (with_claims user_id claims ctx) st user_id refl r
            (ap (λ (o : GinContext × State W). o.0.response) (sym e) ∙ answered) good in
        record {
          user_id = user_id;
          claims = claims;
          row = n;
          admitted = admitted;
          path =
              ap deps.notification.uuid.parse (sym path)
              ∙ parsed
              ∙ ap (λ (k : Uuid). Result.ok k) (sym same);
          stored =
              ap (λ (d : Db). find? (λ (m : Notification). m.id == n.id) d.notifications)
                (sym tables)
              ∙ ap (λ (k : Uuid). find? (λ (m : Notification). m.id == k) st.db.notifications) same
              ∙ found;
          owner = owner;
          shown = shown;
        }
  ]
