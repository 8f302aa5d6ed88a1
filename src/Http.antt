-- ===== src/Http.antt =====
-- What the handlers and the middleware use of gin: the request, the keys and headers of the
-- context, and the response. A middleware that aborts writes a response; one that calls Next as its
-- last act leaves none.
use pulse_notify.Prelude.{ℕ, ℤ, List, ◌∷◌, Option, some, Text}
use pulse_notify.Errors.{Result}
use pulse_notify.Model.{Uuid, Instant, Duration, UserResponse, NotificationResponse}
use pulse_notify.State.{State}

pub record TokenResponse : Type 0 where
  pub access_token : Text
  pub refresh_token : Text
  pub token_type : Text
  pub expires_in : ℤ
  pub user : UserResponse

-- The report of HealthHandler.Check.
pub record HealthReport : Type 0 where
  pub status : Text
  pub service : Text
  pub database : Text
  pub redis : Text
  pub uptime : Duration
  pub timestamp : Instant

-- The JSON bodies that the program writes.
pub data Body : Type 0 where
  -- gin.H{"error": text}
  error_body : Text → Body
  -- gin.H{"message": text}
  message_body : Text → Body
  token_body : TokenResponse → Body
  health_body : HealthReport → Body
  profile_body : UserResponse → Body
  notification_body : NotificationResponse → Body
  -- gin.H{"notifications": items, "count": n}
  list_body : List NotificationResponse → ℕ → Body

pub record Response : Type 0 where
  pub status : ℕ
  pub body : Body

-- gin.Context
pub record GinContext : Type 0 where
  pub client_ip : Text
  pub authorization : Text
  -- the request's body, c.Query("limit") and c.Param("id")
  pub payload : Text
  pub query_limit : Text
  pub param_id : Text
  -- the keys "user_id", "email" and "role" of c.Set and c.Get
  pub user_id : Option Uuid
  pub email : Option Text
  pub role : Option Text
  -- the response's headers, newest first, and the response once one is written
  pub headers : List (Text × Text)
  pub response : Option Response

abbrev pub respond : ℕ → Body → GinContext → GinContext
respond status body c = record c { response = some (record { status = status; body = body }) }

-- c.Header(name, value)
abbrev pub header : Text → Text → GinContext → GinContext
header name value c = record c { headers = (name, value) ∷ c.headers }

-- c.ShouldBindJSON(&req) at one type of requests, with the validation of its binding tags
abbrev pub Bind : Type 0 → Type 0
Bind A = Text → Result A

-- gin.HandlerFunc
abbrev pub HandlerFunc : Type 0 → Type 0
HandlerFunc W = GinContext → State W → GinContext × State W
