-- ===== src/Handler/Accounts.antt =====
-- internal/handler/auth.go
use pulse_notify.Prelude.{ℕ, ◌-◌, pos, none, some, if◌then◌else◌, Text, codes}
use pulse_notify.Errors.{
  Error, Sentinel, errors_is, message, email_taken, invalid_credentials, invalid_refresh,
  user_not_found, Result, ok, err,
}
use pulse_notify.Model.{Instant, UserResponse}
use pulse_notify.State.{State}
use pulse_notify.Http.{
  GinContext, HandlerFunc, Bind, TokenResponse, respond, error_body, message_body, token_body,
  profile_body,
}
use pulse_notify.Middleware.RateLimit.{seconds}
use pulse_notify.Middleware.Access.{user_id_from_context, unauthorized}
use pulse_notify.Service.Accounts.{
  AuthService, AuthResult, signup, login, refresh, logout, get_profile,
}

pub record SignupRequest : Type 0 where
  pub email : Text
  pub password : Text
  pub name : Text

pub record LoginRequest : Type 0 where
  pub email : Text
  pub password : Text

pub record RefreshRequest : Type 0 where
  pub refresh_token : Text

-- buildTokenResponse at the instant `now`: no seconds are left of a token that has expired.
abbrev pub build_token_response : Instant → AuthResult → TokenResponse
build_token_response now result = record {
  access_token = result.access_token;
  refresh_token = result.refresh_token;
  token_type = codes "Bearer";
  expires_in = seconds (pos (result.expires_at - now));
  user = result.user;
}

abbrev sentinel_response : Error → Sentinel → GinContext → GinContext → GinContext
sentinel_response e s known unknown = if errors_is e s then known else unknown

module _ {W : Type 0} (svc : AuthService W) where
  -- The end of Signup, Login and Refresh: the tokens, at a reading of the clock, or the error, with
  -- its status and text for one sentinel and those for any other.
  unfoldable pub token_reply :
      ℕ
      → Sentinel
      → ℕ
      → Text
      → Text
      → GinContext
      → Result AuthResult × State W
      → GinContext × State W
  token_reply status known code text failure c (ok result, s) =
      let (now, w) = svc.clock s.world in
      (respond status (token_body (build_token_response now result)) c, record s { world = w })
  token_reply status known code text failure c (err e, s) = (
    sentinel_response e known (respond code (error_body text) c)
        (respond 500 (error_body failure) c),
    s,
  )

  -- (h *AuthHandler) Signup
  unfoldable pub signup_handler : Bind SignupRequest → HandlerFunc W
  unfolding signup token_reply
  signup_handler bind c s = elim (bind c.payload) [
    | err e ↦ (respond 400 (error_body (message e)) c, s)
    | ok req ↦
        token_reply 201 email_taken 409 (codes "email already registered")
          (codes "could not create account") c (signup svc req.email req.password req.name s)
  ]

  -- (h *AuthHandler) Login
  unfoldable pub login_handler : Bind LoginRequest → HandlerFunc W
  unfolding login token_reply
  login_handler bind c s = elim (bind c.payload) [
    | err e ↦ (respond 400 (error_body (message e)) c, s)
    | ok req ↦
        token_reply 200 invalid_credentials 401 (codes "invalid email or password")
          (codes "could not login") c (login svc req.email req.password s)
  ]

  -- (h *AuthHandler) Refresh
  unfoldable pub refresh_handler : Bind RefreshRequest → HandlerFunc W
  unfolding refresh token_reply
  refresh_handler bind c s = elim (bind c.payload) [
    | err e ↦ (respond 400 (error_body (message e)) c, s)
    | ok req ↦
        token_reply 200 invalid_refresh 401 (codes "invalid or expired refresh token")
          (codes "could not refresh token") c (refresh svc req.refresh_token s)
  ]

  abbrev pub logout_response : Result (Unit {0}) → GinContext → GinContext
  logout_response (ok _) = respond 200 (message_body (codes "logged out"))
  logout_response (err e) = respond 500 (error_body (codes "could not logout"))

  -- (h *AuthHandler) Logout
  unfoldable pub logout_handler : Bind RefreshRequest → HandlerFunc W
  unfolding logout
  logout_handler bind c s = elim (bind c.payload) [
    | err e ↦ (respond 400 (error_body (message e)) c, s)
    | ok req ↦ let (r, s1) = logout svc req.refresh_token s in (logout_response r c, s1)
  ]

  abbrev pub profile_response : Result UserResponse → GinContext → GinContext
  profile_response (ok profile) c = respond 200 (profile_body profile) c
  profile_response (err e) c =
      sentinel_response e user_not_found (respond 404 (error_body (codes "user not found")) c)
        (respond 500 (error_body (codes "could not fetch profile")) c)

  -- (h *AuthHandler) Me
  unfoldable pub me : HandlerFunc W
  unfolding get_profile
  me c s = elim (user_id_from_context c) [
    | none ↦ (unauthorized (codes "unauthorized") c, s)
    | some user_id ↦ let (r, s1) = get_profile svc user_id s in (profile_response r c, s1)
  ]
