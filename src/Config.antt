-- ===== src/Config.antt =====
-- internal/config/config.go. Text is held as code points, so that Go's `len` is a sum over them.
pub mod Split
pub mod Ranges
pub mod Loading
pub mod Defaults
use pulse_notify.Prelude.{
  ℕ, ◌+◌, ℤ, pos, ltb_ℤ, ◌≡◌, ◌≢◌, refl, Bool, true, Option, none, some, List, [], ◌∷◌, ◌++◌, ltb,
  leb, ◌==◌, if◌then◌else◌, Text, text_eq, codes, trim_space, signed_decimal,
}
use pulse_notify.Errors.{Error, other, wrapped, Result, ok, err, map_error}
use pulse_notify.Model.{Duration}
use pulse_notify.Parsing.{atoi}
use pulse_notify.Parsing.Duration.{parse_duration}
use pulse_notify.Parsing.Ends.{parse_duration-ne-none}

-- os.Getenv: the empty text for a variable that is not set.
abbrev pub Env : Type 0
Env = Text → Text

pub record Config : Type 0 where
  pub app_env : Text
  pub http_host : Text
  pub http_port : ℤ
  pub log_level : Text
  pub database_url : Text
  pub jwt_secret : Text
  pub jwt_access_ttl : Duration
  pub jwt_refresh_ttl : Duration
  pub redis_url : Text
  pub kafka_brokers : List Text
  pub kafka_topic : Text
  pub kafka_group_id : Text
  pub worker_concurrency : ℤ
  pub worker_max_retries : ℤ
  pub rate_limit_requests : ℤ
  pub rate_limit_window : Duration

-- getEnv
abbrev pub get_env : Env → Text → Text → Text
get_env env key fallback = let v = env key in if text_eq v [] then fallback else v

abbrev extend : ℕ → List Text → List Text
extend c [] = (c ∷ []) ∷ []
extend c (w ∷ ws) = (c ∷ w) ∷ ws

-- strings.Split with a separator of one code point
unfoldable pub split_on : ℕ → Text → List Text
split_on sep [] = [] ∷ []
split_on sep (c ∷ s) = let rest = split_on sep s in if c == sep then [] ∷ rest else extend c rest

abbrev pub keep_trimmed : List Text → List Text
keep_trimmed [] = []
keep_trimmed (p ∷ ps) =
    let t = trim_space p in if text_eq t [] then keep_trimmed ps else t ∷ keep_trimmed ps

-- splitAndTrim
unfoldable pub split_and_trim : Text → List Text
unfolding split_on
split_and_trim csv = keep_trimmed (split_on b',' csv)

-- The bytes of a code point in UTF-8.
abbrev pub rune_length : ℕ → ℕ
rune_length c = if ltb c 0x80 then 1 else if ltb c 0x800 then 2 else if ltb c 0x10000 then 3 else 4

-- Go's `len` on a string
abbrev pub byte_length : Text → ℕ
byte_length [] = 0
byte_length (c ∷ s) = rune_length c + byte_length s

infixl 5 ◌>>=◌
unfoldable pub ◌>>=◌ : {A B : Type 0} → Result A → (A → Result B) → Result B
ok a >>= k = k a
err e >>= k = err e

abbrev pub or_error {ℓ} : {A : Type ℓ} → Error → Option A → Result A
or_error e none = err e
or_error e (some a) = ok a

-- fmt.Errorf("text: %w", err), if there is an error
unfoldable pub labelled {ℓ} : {A : Type ℓ} → Text → Result A → Result A
labelled text r = map_error (wrapped text) r

-- strconv.Atoi; the error leaves out the text that the code quotes in it.
unfoldable pub read_int : Text → Result ℤ
unfolding atoi
read_int s =
    or_error (other (codes "strconv.Atoi: parsing: invalid syntax or value out of range")) (atoi s)

-- A number that must be at least `least`: every refusal has one text.
unfoldable pub int_from : ℤ → Text → Text → Result ℤ
unfolding atoi
int_from least text s = elim (atoi s) [
  | none ↦ err (other text)
  | some v ↦ if ltb_ℤ v least then err (other text) else ok v
]

unfoldable pub required : Text → Text → Result Text
unfolding text_eq
required text v = if text_eq v [] then err (other text) else ok v

unfoldable pub long_enough : Text → Text → Result Text
long_enough text v = if ltb (byte_length v) 32 then err (other text) else ok v

abbrev pub the_value {ℓ} : {A : Type ℓ} (o : Option A) → o ≢ none → A
the_value none h = absurd (h refl)
the_value (some a) h = a

abbrev pub development : Text
development = codes "development"

-- `fraction` is the floating-point step of time.ParseDuration.
module _ (fraction : ℕ → ℕ → ℕ → ℕ) where
  -- time.ParseDuration
  unfoldable pub read_duration : Text → Result Duration
  unfolding parse_duration
  read_duration s = the_value (parse_duration fraction s) (parse_duration-ne-none fraction s)

  -- The part of Load after the .env file.
  unfoldable pub read_settings : Text → Env → Result Config
  unfolding labelled read_int int_from required long_enough read_duration split_and_trim text_eq
  read_settings app_env env = do
    port ←
        labelled (codes "invalid HTTP_PORT")
          (read_int (get_env env (codes "HTTP_PORT") (codes "8080")))
    access_ttl ←
        labelled (codes "invalid JWT_ACCESS_TTL")
          (read_duration (get_env env (codes "JWT_ACCESS_TTL") (codes "15m")))
    refresh_ttl ←
        labelled (codes "invalid JWT_REFRESH_TTL")
          (read_duration (get_env env (codes "JWT_REFRESH_TTL") (codes "168h")))
    url ← required (codes "DATABASE_URL is required") (env (codes "DATABASE_URL"))
    given ← required (codes "JWT_SECRET is required") (env (codes "JWT_SECRET"))
    secret ← long_enough (codes "JWT_SECRET must be at least 32 characters") given
    concurrency ←
        int_from (pos 1) (codes "invalid WORKER_CONCURRENCY: must be a positive integer")
          (get_env env (codes "WORKER_CONCURRENCY") (codes "4"))
    max_retries ←
        int_from (pos 0) (codes "invalid WORKER_MAX_RETRIES: must be a non-negative integer")
          (get_env env (codes "WORKER_MAX_RETRIES") (codes "3"))
    requests ←
        int_from (pos 0) (codes "invalid RATE_LIMIT_REQUESTS: must be a non-negative integer")
          (get_env env (codes "RATE_LIMIT_REQUESTS") (codes "100"))
    window ←
        labelled (codes "invalid RATE_LIMIT_WINDOW")
          (read_duration (get_env env (codes "RATE_LIMIT_WINDOW") (codes "1m")))
    ok (record {
      app_env = app_env;
      http_host = get_env env (codes "HTTP_HOST") (codes "0.0.0.0");
      http_port = port;
      log_level = get_env env (codes "LOG_LEVEL") (codes "info");
      database_url = url;
      jwt_secret = secret;
      jwt_access_ttl = access_ttl;
      jwt_refresh_ttl = refresh_ttl;
      redis_url = get_env env (codes "REDIS_URL") (codes "redis://127.0.0.1:6379/0");
      kafka_brokers = split_and_trim (get_env env (codes "KAFKA_BROKERS") (codes "127.0.0.1:9092"));
      kafka_topic = get_env env (codes "KAFKA_TOPIC") (codes "notifications");
      kafka_group_id = get_env env (codes "KAFKA_GROUP_ID") (codes "pulse-notify-workers");
      worker_concurrency = concurrency;
      worker_max_retries = max_retries;
      rate_limit_requests = requests;
      rate_limit_window = window;
    })

  -- Load. godotenv.Load sets the variables that a .env file names: `dotenv` gives the environment
  -- after it.
  unfoldable pub load : (Env → Env) → Env → Result Config
  unfolding read_settings
  load dotenv before =
      let app_env = get_env before (codes "APP_ENV") development in
      let env = if text_eq app_env development then dotenv before else before in
      read_settings app_env env

-- (c *Config) Addr
abbrev pub addr : Config → Text
addr c = c.http_host ++ codes ":" ++ signed_decimal c.http_port

-- (c *Config) IsDevelopment
abbrev pub is_development : Config → Bool
is_development c = text_eq c.app_env development
