-- ===== src/Tests/Middleware.antt =====
-- The middleware's theorems at concrete inputs.
use pulse_notify.Prelude.{
  ◌/◌, ◌*◌, ℕ, ℤ, suc, ◌+◌, pos, ◌≡◌, refl, true, Option, none, some, List, [], ◌∷◌, arith,
  if◌then◌else◌, Text, codes, text_eq, text_eq_refl,
}
use pulse_notify.Errors.{Result, ok, err, other}
use pulse_notify.Model.{Instant}
use pulse_notify.External.{Redis, RedisCommand, incr, expire}
use pulse_notify.State.{State}
use pulse_notify.Auth.{JwtPackage, JwtToken, TokenManager, Claims, hs256, parse, key_for}
use pulse_notify.Cache.{incr_with_window}
use pulse_notify.Http.{GinContext, HandlerFunc, message_body, respond}
use pulse_notify.Middleware.Access.{split_space, is_bearer}
use pulse_notify.Middleware.Guards.{Admits}
use pulse_notify.Middleware.RateLimit.{rate_key, too_many}
use pulse_notify.Middleware.Window.{Counts, live, advance, visit, visits, visit_slides}
use pulse_notify.Tests.World.{Outside, down, redis, start, uuid}

abbrev pub request : GinContext
request = record {
  client_ip = codes "10.0.0.1";
  authorization = codes "Bearer t";
  payload = [];
  query_limit = [];
  param_id = [];
  user_id = none;
  email = none;
  role = none;
  headers = [];
  response = none;
}

abbrev admin : Claims
admin = record {
  user_id = 1 ∷ [];
  email = codes "ann@example.org";
  role = codes "admin";
  subject = 1 ∷ [];
  expires_at = 90;
  issued_at = 0;
}

abbrev to_token : Result Text → Result JwtToken
to_token (ok secret) = ok (record { claims = some admin; valid = true })
to_token (err e) = err e

abbrev pub jwt : JwtPackage Outside
jwt = record {
  numeric_date = λ t. t / 1000000000 * 1000000000;
  parse_with_claims = λ token key w. to_token (key hs256);
  signed_string = λ method claims secret. ok claims.user_id;
}

abbrev pub tokens : TokenManager
tokens = record { secret = codes "key"; ttl = pos 90 }

abbrev answer : HandlerFunc Outside
answer c s = (respond 200 (message_body (codes "done")) c, s)

admin_admitted : Admits jwt tokens uuid request start 1 admin
unfolding split_space is_bearer parse key_for text_eq
admin_admitted = record {
  scheme = codes "Bearer";
  token = codes "t";
  present = λ e. cc;
  parts = refl;
  bearer = refl;
  parsed = refl;
  subject = refl;
}

counted : (incr_with_window redis (rate_key request.client_ip) (pos 60) start).0 ≡ ok (pos 3)
unfolding incr_with_window
counted = refl

-- A Redis with one counter for each key, and its clock.
record Counters : Type 0 where
  now : Instant
  counter : Text → Option (ℕ × Instant)

abbrev replace : Text → ℕ × Instant → (Text → Option (ℕ × Instant)) → Text → Option (ℕ × Instant)
replace k v f j = if text_eq j k then some v else f j

abbrev count_in : List RedisCommand → Counters → Result (List ℤ) × Counters
count_in (incr key ∷ expire k (pos d) ∷ []) w =
    let n = suc (live w.now (w.counter key)) in
    (ok (pos n ∷ pos 1 ∷ []), record w { counter = replace key (n, w.now + d) w.counter })
count_in _ w = (err (other (codes "unknown command")), w)

abbrev counting : Redis Counters
counting = record {
  get = λ k w. (err down, w);
  set = λ k v d w. (some down, w);
  del = λ ks w. (some down, w);
  tx_pipeline = count_in;
  ping = λ w. (none, w);
}

counting_laws : Counts counting
counting_laws = record {
  now = λ w. w.now;
  counter = λ w. w.counter;
  later = λ t w. record w { now = w.now + t };
  now-later = λ t w. refl;
  counter-later = λ t w key. refl;
  incr_reply = λ key d w. refl;
  incr_effect = λ key d w some_time. rw (text_eq_refl key) refl;
  incr_now = λ key d w. refl;
}

abbrev noon : State Counters
noon = record { db = start.db; world = record { now = 12; counter = λ k. none }; calls = [] }

-- A limit of 2 in a window of a minute: requests 50 seconds apart are refused from the third on,
-- though any minute holds two of them.
visit_slides_example :
    (visit counting counting_laws 2 60 request (
      advance counting counting_laws 2 60 request 50000000000 (
        visits counting counting_laws 2 60 request
          (50000000000 ∷ 50000000000 ∷ [])
          noon))).0.response
    ≡ some too_many
unfolding counting_laws
visit_slides_example =
    visit_slides counting counting_laws 2 60 request (50000000000 ∷ 50000000000 ∷ []) 50000000000
      noon (omega arith) (omega arith) (omega arith) (omega arith) refl
      (omega arith, (omega arith, tt)) (omega arith) refl
