-- ===== src/Process.antt =====
-- What the two commands act on: the resources that a process opens and closes, the schema of the
-- database, and the state of the world outside; and the calls of pgx, go-redis, kafka-go and
-- net/http that open and close, as an interface.
use pulse_notify.Prelude.{
  ℕ, suc, ◌==◌, ℤ, Bool, Option, List, [], ◌∷◌, ◌≡◌, ◌⊎◌, if◌then◌else◌, Text,
}
use pulse_notify.Errors.{Error, Result, ok, err}
use pulse_notify.Model.{Duration, User, Notification}
use pulse_notify.External.{Delivery}

-- pgxpool.Config: what ParseConfig made of the URL, and the fields that the code sets.
pub record PoolConfig : Type 0 where
  pub connection : Text
  pub max_conns : ℤ
  pub min_conns : ℤ
  pub max_conn_lifetime : Duration

-- kafka.Writer: the fields that the code sets. The balancer is kafka.Hash.
pub record WriterConfig : Type 0 where
  pub addr : List Text
  pub topic : Text
  pub require_all_acks : Bool
  pub allow_auto_topic_creation : Bool
  pub batch_timeout : Duration

-- kafka.ReaderConfig: the fields that the code sets.
pub record ReaderConfig : Type 0 where
  pub brokers : List Text
  pub topic : Text
  pub group_id : Text
  pub min_bytes : ℤ
  pub max_bytes : ℤ
  pub commit_interval : Duration
  pub max_wait : Duration

-- What a process holds open; a Redis client by what redis.ParseURL made of its URL.
pub data Resource : Type 0 where
  database_pool : PoolConfig → Resource
  redis_client : Text → Resource
  kafka_writer : WriterConfig → Resource
  kafka_reader : ReaderConfig → Resource

pub data Effect : Type 0 where
  opened closed : Resource → Effect
  -- ListenAndServe on an address, and Shutdown, which waits for the requests that are served
  served : Text → Effect
  shut_down : Effect
  -- Run of the worker pool
  worked : Effect

-- The tables, where they exist.
pub record Schema : Type 0 where
  pub users : Option (List User)
  pub notifications : Option (List Notification)

-- The effects stand newest first.
pub record Process (W : Type 0) : Type 0 where
  pub world : W
  pub schema : Schema
  pub effects : List Effect

pub record Host (W : Type 0) : Type 0 where
  -- pgxpool.ParseConfig, NewWithConfig, (*Pool).Ping, and what becomes of an Exec
  pub parse_config : Text → Result Text
  pub new_with_config : PoolConfig → W → Option Error × W
  pub ping_pool : W → Option Error × W
  pub exec : W → Delivery × W
  -- redis.ParseURL, (*Client).Ping and Close
  pub parse_url : Text → Result Text
  pub ping_redis : W → Option Error × W
  pub close_redis : W → Option Error × W
  -- (*Writer).Close, (*Reader).Close, (*http.Server).Shutdown
  pub close_writer : W → Option Error × W
  pub close_reader : W → Option Error × W
  pub shutdown : W → Option Error × W

-- A function of the code with a result and effects on the process.
abbrev pub Action : Type 0 → Type 0 → Type 0
Action W A = Process W → Result A × Process W

abbrev pub note : {W : Type 0} → Effect → Process W → Process W
note e p = record p { effects = e ∷ p.effects }

-- The end of a process: still running, by os.Exit or the end of main with an exit code, or by a
-- panic.
pub data Outcome : Type 0 where
  running : Outcome
  exited : ℕ → Outcome
  panicked : Error → Outcome

abbrev kind : Resource → ℕ
kind (database_pool c) = 0
kind (redis_client c) = 1
kind (kafka_writer c) = 2
kind (kafka_reader c) = 3

-- How often resources of one kind were opened, and closed.
abbrev pub opens : Resource → List Effect → ℕ
opens r [] = 0
opens r (opened x ∷ es) = if kind x == kind r then suc (opens r es) else opens r es
opens r (_ ∷ es) = opens r es

abbrev pub closes : Resource → List Effect → ℕ
closes r [] = 0
closes r (closed x ∷ es) = if kind x == kind r then suc (closes r es) else closes r es
closes r (_ ∷ es) = closes r es

-- What a call that opens a resource leaves behind: the resource, or an error and nothing that is
-- still open.
abbrev pub IsUndone : {A : Type 0} → (A → Resource) → List Effect → List Effect → Type 0
IsUndone {A} resource before after =
    (after ≡ before) ⊎ ((a : A) × (after ≡ closed (resource a) ∷ opened (resource a) ∷ before))

abbrev pub IsOpening : {W A : Type 0} → (A → Resource) → List Effect → Result A × Process W → Type 0
IsOpening {A = A} resource before q =
    ((a : A) × (q.0 ≡ ok a) × (q.1.effects ≡ opened (resource a) ∷ before))
    ⊎ ((e : Error) × (q.0 ≡ err e) × IsUndone resource before q.1.effects)
