-- ===== src/Tests/Wiring.antt =====
-- The theorems on the parts as the commands wire them, at concrete inputs.
use pulse_notify.Prelude.{
  ◌/◌, ◌*◌, ℕ, ◌<◌, ◌≡◌, refl, true, if◌then◌else◌, ltb, none, some, [], ◌∷◌, ◌++◌, arith, Text,
  codes, text_eq, text_eq_refl,
}
use pulse_notify.Errors.{Result, ok, err}
use pulse_notify.Model.{User, user_to_response}
use pulse_notify.State.{State}
use pulse_notify.Cache.{set}
use pulse_notify.Auth.{Claims, hs256, JwtPackage, JwtToken}
use pulse_notify.Auth.Tokens.{JwtLaws}
use pulse_notify.Http.{GinContext}
use pulse_notify.Middleware.Access.{with_claims}
use pulse_notify.Router.{jwt_middleware}
use pulse_notify.Service.Accounts.{AuthResult, issue_tokens}
use pulse_notify.Worker.Notifier.{Random}
use pulse_notify.Command.Wiring.{Packages, api_deps, api_deps-jwt_middleware}
use pulse_notify.Tests.World.{Outside, ann, clock, down, pg, redis, start, tick, uuid}
use pulse_notify.Tests.Config.{secret, settings}
use pulse_notify.Tests.Middleware.{request}

-- A JWT package for claims of texts with one code point: the token is the claims and the secret.
abbrev sign : Text → Text → Text → Text → ℕ → ℕ → Text → Result Text
sign (a ∷ []) (b ∷ []) (c ∷ []) (d ∷ []) e i k = ok (a ∷ b ∷ c ∷ d ∷ e ∷ i ∷ k)
sign _ _ _ _ e i k = err down

abbrev read_with : Result Text → Text → ℕ → Result JwtToken
read_with (ok k) (a ∷ b ∷ c ∷ d ∷ e ∷ i ∷ t) now =
    if text_eq t k
    then (if ltb now e
        then ok (record {
          claims = some (record {
            user_id = a ∷ [];
            email = b ∷ [];
            role = c ∷ [];
            subject = d ∷ [];
            expires_at = e;
            issued_at = i;
          });
          valid = true;
        })
        else err down)
    else err down
read_with _ _ now = err down

abbrev jwt : JwtPackage Outside
jwt = record {
  numeric_date = λ t. t / 1000000000 * 1000000000;
  parse_with_claims = λ token key w. read_with (key hs256) token w.clock;
  signed_string = λ method claims secret.
      sign claims.user_id claims.email claims.role claims.subject claims.expires_at claims.issued_at
        secret;
}

sign-read :
    (a b c d : Text) (e i : ℕ) (k signed : Text) (now : ℕ)
    → sign a b c d e i k ≡ ok signed
    → now < e
    → read_with (ok k) signed now
      ≡ ok (record {
        claims = some (record {
          user_id = a;
          email = b;
          role = c;
          subject = d;
          expires_at = e;
          issued_at = i;
        });
        valid = true;
      })
sign-read (a ∷ []) (b ∷ []) (c ∷ []) (d ∷ []) e i k signed now h fresh =
    let text : a ∷ b ∷ c ∷ d ∷ e ∷ i ∷ k ≡ signed = cc in
    let early : ltb now e ≡ true = ground arith in rw (← text, text_eq_refl k, early) refl
sign-read _ _ _ _ e i k signed now h fresh = cc

unfoldable clock_laws : JwtLaws jwt
clock_laws = record {
  now = λ w. w.clock;
  cut_twice = λ t. omega arith;
  signed_is_valid = λ claims secret signed key w whole cut done given early. rw given (
      sign-read claims.user_id claims.email claims.role claims.subject claims.expires_at
        claims.issued_at secret signed w.clock done early);
}

abbrev packages : Packages Outside
packages = record {
  postgres = pg;
  redis = redis;
  writer = λ c msg w. (none, w);
  jwt = jwt;
  bcrypt = record {
    generate_from_password = λ password cost w. (ok password, w);
    compare_hash_and_password = λ hash password. none;
  };
  random = record { read = λ n w. (ok (w.clock ∷ []), tick w); encode_to_string = λ b. b };
  uuid = uuid;
  clock = clock;
  profile_codec = record { marshal = λ u. err down; unmarshal = λ s. err down };
  list_codec = record { marshal = λ u. err down; unmarshal = λ s. err down };
  event_codec = record { marshal = λ u. err down; unmarshal = λ s. err down };
  fold = λ c. c;
  bind_signup = λ s. err down;
  bind_login = λ s. err down;
  bind_refresh = λ s. err down;
  bind_notification = λ s. err down;
}

-- A user whose address and role have one letter.
abbrev bo : User
bo = record ann { id = 5; email = codes "b"; role = codes "u" }

abbrev session : Result AuthResult × State Outside
session = issue_tokens (api_deps packages settings 0).auth bo start

abbrev tokens : AuthResult
tokens = record {
  access_token = 5 ∷ 98 ∷ 117 ∷ 5 ∷ 900000000000 ∷ 0 ∷ secret;
  refresh_token = 2 ∷ [];
  expires_at = 900000000000;
  user = user_to_response uuid.to_text bo;
}

session_starts : issue_tokens (api_deps packages settings 0).auth bo start ≡ (ok tokens, session.1)
unfolding issue_tokens set
session_starts = refl

abbrev with_token : GinContext
with_token = record request { authorization = codes "Bearer " ++ tokens.access_token }

api_deps-jwt_middleware_example :
    (claims : Claims) × (claims.email ≡ codes "b")
    × (claims.role ≡ codes "u")
    × (jwt_middleware (api_deps packages settings 0) with_token start
        ≡ (with_claims 5 claims with_token, start))
unfolding clock_laws
api_deps-jwt_middleware_example =
    api_deps-jwt_middleware packages clock_laws settings 0 bo tokens start session.1 start
      with_token session_starts (omega arith) refl

abbrev pub random : Random Outside ℕ
random = record { intn = λ n w. (0, w); float64 = λ w. (w.clock, w); less = λ x y. ltb x y }
