-- ===== src/Tests/World.antt =====
-- A world for the tests: a clock that every call moves on, and the values of a Redis.
use pulse_notify.Prelude.{
  ℕ, suc, refl, pos, not, Option, none, some, List, [], ◌∷◌, if◌then◌else◌, Text, codes, text_eq,
  ltb,
}
use pulse_notify.Errors.{Error, Result, ok, err, other, sentinel, redis_nil, canceled}
use pulse_notify.Model.{User, Notification, pending, NotificationEvent}
use pulse_notify.External.{Delivery, delivered, Postgres, UuidPackage, Redis, Clock, Message}
use pulse_notify.State.{Db, State}
use pulse_notify.Worker.Notifier.{Context, Notifier}
use pulse_notify.Worker.Pool.{Consumer, Pool}

pub record Outside : Type 0 where
  pub clock : ℕ
  pub table : Text → Option Text

abbrev pub tick : Outside → Outside
tick w = record w { clock = suc w.clock }

abbrev pub put : Text → Text → (Text → Option Text) → Text → Option Text
put k v t j = if text_eq j k then some v else t j

abbrev pub remove : Text → (Text → Option Text) → Text → Option Text
remove k t j = if text_eq j k then none else t j

abbrev pub remove_all : List Text → (Text → Option Text) → Text → Option Text
remove_all [] t = t
remove_all (k ∷ ks) t = remove_all ks (remove k t)

abbrev lookup : Option Text → Result Text
lookup none = err (sentinel redis_nil)
lookup (some v) = ok v

abbrev pub redis : Redis Outside
redis = record {
  get = λ k w. (lookup (w.table k), w);
  set = λ k v d w. (none, record w { table = put k v w.table });
  del = λ ks w. (none, record w { table = remove_all ks w.table });
  tx_pipeline = λ cs w. (ok (pos 3 ∷ pos 1 ∷ []), w);
  ping = λ w. (none, w);
}

abbrev pub down : Error
down = other (codes "down")

abbrev pub pg_with : Delivery → Postgres Outside
pg_with d = record {
  statement = λ w. (record { delivery = d; uuid = w.clock; now = w.clock }, tick w);
  ping = λ w. (none, w);
}

abbrev pub pg : Postgres Outside
pg = pg_with delivered

abbrev parse_uuid : Text → Result ℕ
parse_uuid (u ∷ []) = ok u
parse_uuid _ = err (other (codes "invalid UUID"))

-- A UUID written as one code point.
abbrev pub uuid : UuidPackage
uuid = record { to_text = λ u. u ∷ []; parse = parse_uuid; parse-to_text = λ u. refl }

abbrev pub clock : Clock Outside
clock w = (w.clock, tick w)

-- A context that ends at the clock 100.
abbrev pub ctx : Context Outside
ctx = record {
  error = λ w. if ltb w.clock 100 then none else some (sentinel canceled);
  wait = λ d w. (not (ltb w.clock 100), w);
}

abbrev pub mail : NotificationEvent
mail = record {
  notification_id = 7 ∷ [];
  user_id = 1 ∷ [];
  channel = codes "email";
  recipient = codes "ann@example.org";
  subject = codes "Hi";
  body = codes "Hello";
  enqueued_at = 3;
}

-- A provider that is busy until the clock 2.
abbrev pub notifier : Notifier Outside
notifier evt w = (if ltb w.clock 2 then some (other (codes "busy")) else none, tick w)

abbrev pub ann : User
ann = record {
  id = 1;
  email = codes "ann@example.org";
  password_hash = codes "secret";
  name = codes "Ann";
  role = codes "user";
  created_at = 0;
  updated_at = 0;
}

abbrev pub row : ℕ → ℕ → Notification
row id created_at = record {
  id = id;
  user_id = 1;
  channel = codes "email";
  recipient = codes "ann@example.org";
  subject = codes "Hi";
  body = codes "Hello";
  status = pending;
  attempts = pos 0;
  last_error = [];
  created_at = created_at;
  updated_at = created_at;
  sent_at = none;
}

abbrev pub db : Db
db = record { users = ann ∷ []; notifications = row 7 3 ∷ row 8 5 ∷ [] }

abbrev pub start : State Outside
start = record { db = db; world = record { clock = 0; table = λ k. none }; calls = [] }

abbrev read_event : Text → Result NotificationEvent
read_event [] = err (other (codes "unexpected end of JSON input"))
read_event (c ∷ s) = ok mail

abbrev pub consumer : Consumer Outside
consumer = record {
  fetch = λ w. (err (sentinel canceled), w);
  commit = λ detached msg w. (none, w);
}

abbrev pub pool : Postgres Outside → ℕ → Pool Outside
pool repo retries = record {
  consumer = consumer;
  repo = repo;
  notifier = notifier;
  concurrency = pos 4;
  max_retries = pos retries;
  ctx = ctx;
  uuid = uuid;
  codec = record { marshal = λ evt. ok evt.body; unmarshal = read_event };
}

abbrev pub message : Message
message = record { key = 7 ∷ []; value = codes "mail"; offset = pos 0 }

abbrev pub empty_message : Message
empty_message = record { key = []; value = []; offset = pos 1 }
