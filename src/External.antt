-- ===== src/External.antt =====
-- The services and packages outside the repository, as interfaces over a type `W` of the world's
-- states: PostgreSQL (pgx), Redis (go-redis), Kafka (kafka-go), UUIDs, encoding/json, the clock.
-- A field is a call that the code makes; what a theorem relies on beyond its type is a hypothesis.
use pulse_notify.Prelude.{ℤ, ◌≡◌, List, Option, Text}
use pulse_notify.Errors.{Error, Result, ok}
use pulse_notify.Model.{Uuid, Instant, Duration, NotificationEvent}

-- What becomes of one SQL statement: carried out and answered; refused before it took effect; or
-- carried out with its answer lost.
pub data Delivery : Type 0 where
  delivered : Delivery
  refused unacknowledged : Error → Delivery

-- The server's part in one statement: gen_random_uuid() and NOW() are drawn here.
pub record Statement : Type 0 where
  pub delivery : Delivery
  pub uuid : Uuid
  pub now : Instant

pub record Postgres (W : Type 0) : Type 0 where
  pub statement : W → Statement × W
  pub ping : W → Option Error × W

-- github.com/google/uuid
pub record UuidPackage : Type 0 where
  pub to_text : Uuid → Text
  pub parse : Text → Result Uuid
  pub parse-to_text : (u : Uuid) → parse (to_text u) ≡ ok u

-- The commands of a go-redis transaction pipeline.
pub data RedisCommand : Type 0 where
  incr : Text → RedisCommand
  expire : Text → Duration → RedisCommand

-- A missing key is the error `redis.Nil`.
pub record Redis (W : Type 0) : Type 0 where
  pub get : Text → W → Result Text × W
  pub set : Text → Text → Duration → W → Option Error × W
  pub del : List Text → W → Option Error × W
  -- The replies of the commands, as integers, if the transaction was carried out.
  pub tx_pipeline : List RedisCommand → W → Result (List ℤ) × W
  pub ping : W → Option Error × W

-- encoding/json at one type: json.Marshal and json.Unmarshal.
pub record Codec (A : Type 0) : Type 0 where
  pub marshal : A → Result Text
  pub unmarshal : Text → Result A

-- kafka.Message: the fields that the program sets or reads.
pub record Message : Type 0 where
  pub key : Text
  pub value : Text
  pub offset : ℤ

-- (*kafka.Writer).WriteMessages with one message.
abbrev pub KafkaWriter : Type 0 → Type 0
KafkaWriter W = Message → W → Option Error × W

-- time.Now()
abbrev pub Clock : Type 0 → Type 0
Clock W = W → Instant × W

-- service.NotificationProducer
abbrev pub NotificationProducer : Type 0 → Type 0
NotificationProducer W = NotificationEvent → W → Option Error × W
