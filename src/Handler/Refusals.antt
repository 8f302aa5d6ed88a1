-- ===== src/Handler/Refusals.antt =====
-- What the handlers of internal/handler/auth.go answer to those who are not admitted.
use pulse_notify.Prelude.{◌≡◌, ◌≢◌, ◌⊎◌, inl, inr, Bool-cases, some, All, arith, false, codes}
use pulse_notify.Errors.{errors_is, ok, invalid_refresh, Result-cases}
use pulse_notify.Model.{User}
use pulse_notify.External.{delivered, Redis}
use pulse_notify.State.{State}
use pulse_notify.Repository.Users
use pulse_notify.Auth.{check_password}
use pulse_notify.Http.{GinContext, Bind, Response, respond, error_body}
use pulse_notify.Service.Accounts.{AuthService, canonical_email, refresh, logout}
use pulse_notify.Service.Login.{login-invalid}
use pulse_notify.Service.Sessions.{KeyValue}
use pulse_notify.Service.Rotation.{refresh-logout}
use pulse_notify.Handler.Accounts.{
  LoginRequest, RefreshRequest, login_handler, refresh_handler, token_reply,
}

module _ {W : Type 0} (svc : AuthService W) where
  -- The login handler answers an unknown address, where the server answers, and a wrong password
  -- with the same status and text: 401, "invalid email or password".
  pub login_handler_refuses :
      (bind : Bind LoginRequest) (c : GinContext) (s : State W) (req : LoginRequest)
      → bind c.payload ≡ ok req
      → (((svc.users.statement s.world).0.delivery ≡ delivered)
          × All (λ (u : User). u.email ≢ canonical_email svc req.email) s.db.users)
        ⊎ ((user : User) × ((Users.find_by_email svc.users (canonical_email svc req.email) s).0
              ≡ ok user)
            × (check_password svc.bcrypt user.password_hash req.password ≡ false))
      → (login_handler svc bind c s).0
        ≡ respond 401 (error_body (codes "invalid email or password")) c
  unfolding login_handler token_reply errors_is
  login_handler_refuses bind c s req bound refused =
      ground (arith, login-invalid svc req.email req.password s refused)

  -- After a logout that reports success, the refresh handler does not answer 200 to the token.
  pub refresh_handler-logout :
      (cache : Redis W) (laws : KeyValue svc cache)
      → svc.cache ≡ some cache
      → (bind : Bind RefreshRequest) (c : GinContext) (req : RefreshRequest) (s s' : State W)
      → bind c.payload ≡ ok req
      → logout svc req.refresh_token s ≡ (ok tt, s')
      → (r : Response) × ((refresh_handler svc bind c s').0.response ≡ some r) × (r.status ≢ 200)
  unfolding refresh_handler token_reply
  refresh_handler-logout cache laws cached bind c req s s' bound out =
      elim (Result-cases (refresh svc req.refresh_token s').0) [
        | inl (again, h) ↦
            absurd (refresh-logout svc cache laws cached req.refresh_token s s' out again h)
        | inr (e, h) ↦ elim (Bool-cases (errors_is e invalid_refresh)) [
          | inl known ↦ (
            record { status = 401; body = error_body (codes "invalid or expired refresh token") },
            ground arith,
            λ q. omega (arith, q),
          )
          | inr unknown ↦ (
            record { status = 500; body = error_body (codes "could not refresh token") },
            ground arith,
            λ q. omega (arith, q),
          )
        ]
      ]
