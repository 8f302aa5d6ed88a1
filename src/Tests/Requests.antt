-- ===== src/Tests/Requests.antt =====
-- The theorems on what requests bring, at concrete inputs.
use pulse_notify.Prelude.{
  ℕ, zero, suc, ap, length, ◌++◌, ◌≡◌, refl, true, some, none, [], ◌∷◌, arith, ltb, if◌then◌else◌,
  Text, codes, text_eq,
}
use pulse_notify.Errors.{Result, ok, err, errors_is}
use pulse_notify.External.{Statement}
use pulse_notify.Database.{notification_fits}
use pulse_notify.Repository.Notifications.{new_notification}
use pulse_notify.Config.{byte_length}
use pulse_notify.Cache.{get}
use pulse_notify.Http.{GinContext, Bind, respond, error_body}
use pulse_notify.Service.Accounts.{AuthService, AuthResult, refresh_key}
use pulse_notify.Service.Notifications.{enqueue_checked}
use pulse_notify.Service.Race.{Available, race, race_both}
use pulse_notify.Handler.Accounts.{SignupRequest, signup_handler}
use pulse_notify.Handler.Notifications
use pulse_notify.Handler.Notifications.{CreateNotificationRequest, create_response}
use pulse_notify.Handler.Requests.{
  create_tags, signup_tags, Binds, create-admitted, RefusesLong, signup_handler-long_password,
}
use pulse_notify.Tests.World.{Outside, ann, down, redis, start}
use pulse_notify.Tests.Middleware.{request}
use pulse_notify.Tests.Service
use pulse_notify.Tests.Sessions
use pulse_notify.Tests.Sessions.{signed_in}

abbrev asked : CreateNotificationRequest
asked = record {
  channel = codes "sms";
  recipient = codes "5550100";
  subject = [];
  body = codes "Hello";
}

abbrev bind_asked : Bind CreateNotificationRequest
bind_asked payload = ok asked

asked_tagged : Binds create_tags bind_asked
unfolding create_tags text_eq
asked_tagged payload req h = let e : asked ≡ req = cc in rw (← e) refl

abbrev caller : GinContext
caller = record request { user_id = some 1 }

create-admitted_example :
    (let r =
        enqueue_checked Service.service 1
          (codes "sms")
          (codes "5550100")
          []
          (codes "Hello")
          start in
      Notifications.create Service.service bind_asked caller start
      ≡ (create_response r.0 caller, r.1))
    × ((st : Statement)
        → notification_fits
            (new_notification 1 (codes "sms") (codes "5550100") [] (codes "Hello") st)
          ≡ true)
create-admitted_example =
    create-admitted Service.service 1 bind_asked caller asked start asked_tagged refl refl

abbrev limited : AuthService Outside
limited = record (Sessions.service redis) {
  bcrypt = record {
    generate_from_password =
        λ password cost w. (if ltb 72 (byte_length password) then err down else ok password, w);
    compare_hash_and_password = λ hash password. none;
  };
}

limited_refuses : RefusesLong limited.bcrypt
unfolding errors_is
limited_refuses password w h = (down, ground arith, refl)

-- A text that holds the three fields of the request, one after the other with their lengths.
abbrev text_of : SignupRequest → Text
text_of req = length req.email ∷ length req.password ∷ (req.email ++ (req.password ++ req.name))

abbrev split_at : ℕ → Text → Text × Text
split_at zero s = ([], s)
split_at (suc n) [] = ([], [])
split_at (suc n) (x ∷ s) = let r = split_at n s in (x ∷ r.0, r.1)

split_at-append : (a b : Text) → split_at (length a) (a ++ b) ≡ (a, b)
split_at-append [] b = refl
split_at-append (x ∷ a) b = ap (λ (r : Text × Text). (x ∷ r.0, r.1)) (split_at-append a b)

abbrev read_fields : Text → Result SignupRequest
read_fields (m ∷ n ∷ s) =
    let (email, rest) = split_at m s in
    let (password, name) = split_at n rest in
    ok (record { email = email; password = password; name = name })
read_fields _ = err down

reads_fields : (req : SignupRequest) → read_fields (text_of req) ≡ ok req
reads_fields req =
    rw (split_at-append req.email (req.password ++ req.name), split_at-append req.password req.name)
      refl

signup_handler-long_password_example :
    (req : SignupRequest) × (signup_tags (λ s. true) req ≡ true)
    × (let sent = record request { payload = text_of req } in
        ((signup_handler limited read_fields sent start).0
          ≡ respond 500 (error_body (codes "could not create account")) sent)
        × ((signup_handler limited read_fields sent start).1.db ≡ start.db))
unfolding text_eq
signup_handler-long_password_example =
    signup_handler-long_password limited (λ s. true) (codes "bo@example.org") text_of read_fields
      request start limited_refuses refl refl (λ req h. reads_fields req)

all_up : Available (Sessions.service redis) redis
all_up = record {
  cached = refl;
  answers = λ w. refl;
  signs = λ claims secret. (claims.email, refl);
  reads = λ n w. (w.clock ∷ [], refl);
  sets = λ k v d w. refl;
}

found_twice :
    ((get redis (refresh_key (codes "old")) signed_in).0 ≡ ok (some (1 ∷ [])))
    × ((get redis (refresh_key (codes "old")) (get redis (refresh_key (codes "old")) signed_in).1).0
        ≡ ok (some (1 ∷ [])))
unfolding get text_eq
found_twice = (refl, refl)

race_both_example :
    (a : AuthResult) × (b : AuthResult) × ((race
        (Sessions.service redis)
        redis
        (refresh_key (codes "old"))
        signed_in).0
      ≡ (ok a, ok b))
race_both_example =
    race_both (Sessions.service redis) redis all_up (refresh_key (codes "old")) (1 ∷ []) 1 ann
      signed_in found_twice.0 found_twice.1 refl refl
