-- ===== src/Tests/Sessions.antt =====
-- The theorems on accounts and refresh tokens at concrete inputs.
use pulse_notify.Prelude.{
  ◌/◌, ◌*◌, ℕ, ◌+◌, pos, ◌≡◌, ◌≢◌, refl, true, false, if◌then◌else◌, Option, none, some, [], ◌∷◌,
  arith, Text, codes, text_eq, text_eq_iff, text_eq_refl, trim_space, to_lower,
}
use pulse_notify.Errors.{Error, ok, err, other}
use pulse_notify.Model.{User, user_to_response}
use pulse_notify.External.{Redis}
use pulse_notify.State.{State}
use pulse_notify.Repository.Users
use pulse_notify.Cache.{get, set, delete}
use pulse_notify.Auth.{check_password}
use pulse_notify.Service.Accounts.{
  AuthService, AuthResult, canonical_email, refresh_key, issue_tokens, login, refresh,
}
use pulse_notify.Service.Sessions.{KeyValue}
use pulse_notify.Service.Rotation.{refresh_twice}
use pulse_notify.Service.Login.{login_sound}
use pulse_notify.Tests.World.{Outside, ann, clock, down, pg, put, redis, start, tick, uuid}

abbrev compare : Text → Text → Option Error
compare hash password = if text_eq hash password then none else some (other (codes "mismatch"))

abbrev pub service : Redis Outside → AuthService Outside
service c = record {
  users = pg;
  tokens = record { secret = codes "key"; ttl = pos 90 };
  cache = some c;
  refresh_ttl = pos 900;
  jwt = record {
    parse_with_claims = λ token key w. err down;
    numeric_date = λ t. t / 1000000000 * 1000000000;
    signed_string = λ method claims secret. ok claims.email;
  };
  bcrypt = record {
    generate_from_password = λ password cost w. (ok password, w);
    compare_hash_and_password = compare;
  };
  random = record { read = λ n w. (ok (w.clock ∷ []), tick w); encode_to_string = λ b. b };
  uuid = uuid;
  clock = clock;
  profile_codec = record { marshal = λ u. ok u.id; unmarshal = λ s. err down };
  fold = λ c. c;
}

unfoldable pub redis_laws : KeyValue (service redis) redis
redis_laws = record {
  view = λ w. w.table;
  get_value = λ k v w h. ground arith;
  set_value = λ k v d w h. rw (text_eq_refl k) refl;
  set_other = λ k v j d w ne. ground (arith, text_eq_iff j k);
  del_value = λ k w h. rw (text_eq_refl k) refl;
  del_other = λ k j w ne. ground (arith, text_eq_iff j k);
  clock_view = λ w j. refl;
  read_view = λ n w j. refl;
  statement_view = λ w j. refl;
}

-- A state in which a refresh token is stored for the user 1.
abbrev pub signed_in : State Outside
signed_in = record start {
  world = record { clock = 40; table = put (refresh_key (codes "old")) (1 ∷ []) (λ k. none) };
}

abbrev pub result : ℕ → AuthResult
result at = record {
  access_token = ann.email;
  refresh_token = (at + 2) ∷ [];
  expires_at = at + 90;
  user = user_to_response uuid.to_text ann;
}

issued :
    issue_tokens (service redis) ann start
    ≡ (ok (result 0), (issue_tokens (service redis) ann start).1)
unfolding issue_tokens set
issued = refl

abbrev pub refreshed : Redis Outside → State Outside
refreshed c = (refresh (service c) (codes "old") signed_in).1

pub rotated : refresh (service redis) (codes "old") signed_in ≡ (ok (result 41), refreshed redis)
unfolding refresh text_eq get Users.find_by_id delete set
rotated = refl

refresh_twice_example : (refresh (service redis) (codes "old") (refreshed redis)).0 ≢ ok (result 50)
refresh_twice_example =
    refresh_twice (service redis) redis redis_laws refl (codes "old") (result 41) signed_in
      (refreshed redis) rotated refl (λ e. cc) (result 50)

abbrev pub address : Text
address = codes " Ann@Example.org"

abbrev logged_in : State Outside
logged_in = (login (service redis) address (codes "secret") start).1

login_succeeds : login (service redis) address (codes "secret") start ≡ (ok (result 1), logged_in)
unfolding login trim_space to_lower text_eq Users.find_by_email set
login_succeeds = refl

login_sound_example :
    (user : User) × (s1 : State Outside) × (Users.find_by_email pg
        (canonical_email (service redis) address)
        start
      ≡ (ok user, s1))
    × (user.email ≡ canonical_email (service redis) address)
    × (check_password (service redis).bcrypt user.password_hash (codes "secret") ≡ true)
    × ((result 1).user ≡ user_to_response uuid.to_text user)
login_sound_example =
    login_sound (service redis) address (codes "secret") (result 1) start logged_in login_succeeds

pub found : (Users.find_by_email pg (canonical_email (service redis) address) start).0 ≡ ok ann
unfolding Users.find_by_email trim_space to_lower text_eq
found = refl

pub wrong_password : check_password (service redis).bcrypt ann.password_hash (codes "guess") ≡ false
unfolding check_password text_eq
wrong_password = refl
