-- ===== src/Tests/Accounts.antt =====
-- The theorems on sign-up and on the handlers of accounts at concrete inputs.
use pulse_notify.Prelude.{
  ◌≡◌, refl, inr, [], ◌∷◌, any, Text, codes, text_eq, trim_space, to_lower, true,
}
use pulse_notify.Errors.{Result, ok}
use pulse_notify.Model.{User, user_to_response}
use pulse_notify.State.{State}
use pulse_notify.Database.{user_fits, user_violation}
use pulse_notify.Repository.Users
use pulse_notify.Repository.Users.{new_user}
use pulse_notify.Cache.{set}
use pulse_notify.Auth.{hash_password}
use pulse_notify.Http.{respond, error_body}
use pulse_notify.Service.Accounts.{AuthResult, canonical_email, signup}
use pulse_notify.Service.Signup.{AddsUser, signup-AddsUser}
use pulse_notify.Handler.Accounts.{login_handler}
use pulse_notify.Handler.Refusals.{login_handler_refuses}
use pulse_notify.Tests.World.{Outside, ann, db, pg, redis, start, uuid}
use pulse_notify.Tests.Middleware.{request}
use pulse_notify.Tests.Sessions.{address, found, service, wrong_password}

abbrev bob : Text
bob = codes " Bob@example.org"

abbrev signed_up : Result AuthResult × State Outside
signed_up = signup (service redis) bob (codes "12345678") (codes "Bob") start

abbrev result : AuthResult
result = record {
  access_token = codes "bob@example.org";
  refresh_token = 3 ∷ [];
  expires_at = 91;
  user = record {
    id = 0 ∷ [];
    email = codes "bob@example.org";
    name = codes "Bob";
    role = codes "user";
    created_at = 0;
  };
}

signup_succeeds : signed_up ≡ (ok result, signed_up.1)
unfolding signup hash_password trim_space to_lower text_eq Users.create user_violation set
    user_to_response
signup_succeeds = refl

signup-AddsUser_example :
    (user : User) × AddsUser
      (canonical_email (service redis) bob)
      (codes "Bob")
      user
      db
      signed_up.1.db
    × (result.user ≡ user_to_response uuid.to_text user)
signup-AddsUser_example =
    signup-AddsUser (service redis) bob (codes "12345678") (codes "Bob") result start signed_up.1
      signup_succeeds

hashed :
    hash_password (service redis).bcrypt (codes "12345678") start ≡ (ok (codes "12345678"), start)
unfolding hash_password
hashed = refl

ann_fits :
    user_fits (
      new_user
        (canonical_email (service redis) address)
        (codes "12345678")
        (codes "Ann")
        (codes "user")
        (pg.statement start.world).0)
    ≡ true
unfolding trim_space to_lower
ann_fits = refl

ann_is_there :
    any (λ (u : User). text_eq u.email (canonical_email (service redis) address)) db.users ≡ true
unfolding trim_space to_lower text_eq
ann_is_there = refl

login_handler_refuses_example :
    (login_handler
      (service redis)
      (λ body. ok (record { email = address; password = codes "guess" }))
      request
      start).0
    ≡ respond 401 (error_body (codes "invalid email or password")) request
login_handler_refuses_example =
    login_handler_refuses (service redis)
      (λ body. ok (record { email = address; password = codes "guess" })) request start
      (record { email = address; password = codes "guess" }) refl (inr (ann, found, wrong_password))
