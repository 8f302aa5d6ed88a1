-- ===== src/Errors.antt =====
-- Go's `error` values: the sentinels that the program compares with, errors of other packages, and
-- `fmt.Errorf` with verb %w. Code: internal/repository, internal/service (the `Err…` variables).
use pulse_notify.Prelude.{
  ℕ, ◌≡◌, refl, ◌⊎◌, inl, inr, Bool, false, Option, none, some, ◌++◌, ◌==◌, Text, codes, text_eq,
}

-- The package-level variables that `errors.Is` is asked about.
pub data Sentinel : Type 0 where
  user_not_found duplicate_email notification_not_found : Sentinel
  invalid_credentials email_taken invalid_refresh : Sentinel
  -- pgx.ErrNoRows, redis.Nil, context.Canceled, http.ErrServerClosed
  no_rows redis_nil canceled server_closed : Sentinel

pub data Error : Type 0 where
  sentinel : Sentinel → Error
  -- *pgconn.PgError, by its SQLSTATE code and its text
  pg_error : Text → Text → Error
  -- an error of another package, or of `errors.New`, by its text
  other : Text → Error
  -- fmt.Errorf("text: %w", err)
  wrapped : Text → Error → Error

abbrev tag : Sentinel → ℕ
tag user_not_found = 0
tag duplicate_email = 1
tag notification_not_found = 2
tag invalid_credentials = 3
tag email_taken = 4
tag invalid_refresh = 5
tag no_rows = 6
tag redis_nil = 7
tag canceled = 8
tag server_closed = 9

-- errors.Is(err, target) for a sentinel target: the chain of wrapped errors is searched.
unfoldable pub errors_is : Error → Sentinel → Bool
errors_is (sentinel s) target = tag s == tag target
errors_is (pg_error code text) target = false
errors_is (other text) target = false
errors_is (wrapped text e) target = errors_is e target

-- errors.As(err, &pgErr) && pgErr.Code == code
unfoldable pub has_pg_code : Error → Text → Bool
has_pg_code (sentinel s) code = false
has_pg_code (pg_error c text) code = text_eq c code
has_pg_code (other text) code = false
has_pg_code (wrapped text e) code = has_pg_code e code

abbrev sentinel_text : Sentinel → Text
sentinel_text user_not_found = codes "user not found"
sentinel_text duplicate_email = codes "email already registered"
sentinel_text notification_not_found = codes "notification not found"
sentinel_text invalid_credentials = codes "invalid email or password"
sentinel_text email_taken = codes "email already registered"
sentinel_text invalid_refresh = codes "invalid or expired refresh token"
sentinel_text no_rows = codes "no rows in result set"
sentinel_text redis_nil = codes "redis: nil"
sentinel_text canceled = codes "context canceled"
sentinel_text server_closed = codes "http: Server closed"

-- err.Error()
unfoldable pub message : Error → Text
message (sentinel s) = sentinel_text s
message (pg_error code text) = text
message (other text) = text
message (wrapped text e) = text ++ codes ": " ++ message e

-- A call that returns a value and an error.
pub data Result {ℓ} (A : Type ℓ) : Type ℓ where
  ok : A → Result A
  err : Error → Result A

-- What `if err != nil` tests of a call that returns only an error.
abbrev pub to_result : Option Error → Result (Unit {0})
to_result none = ok tt
to_result (some e) = err e

abbrev pub map_error {ℓ} : {A : Type ℓ} → (Error → Error) → Result A → Result A
map_error f (ok a) = ok a
map_error f (err e) = err (f e)

pub Result-cases {ℓ} :
    {A : Type ℓ} (r : Result A) → ((a : A) × (r ≡ ok a)) ⊎ ((e : Error) × (r ≡ err e))
Result-cases (ok a) = inl (a, refl)
Result-cases (err e) = inr (e, refl)
