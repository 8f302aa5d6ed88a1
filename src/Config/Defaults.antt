-- ===== src/Config/Defaults.antt =====
-- The fallbacks of Load of internal/config/config.go.
use pulse_notify.Prelude.{
  ℕ, ◌≤◌, pos, ◌≡◌, ◌≢◌, refl, false, arith, [], ◌∷◌, ltb, if◌then◌else◌, Text, text_eq, codes,
  trim_space,
}
use pulse_notify.Errors.{ok}
use pulse_notify.Config.{
  Env, Config, ◌>>=◌, byte_length, labelled, read_int, int_from, read_duration, required,
  long_enough, read_settings, load, split_and_trim,
}

-- The environment with the two variables that have no fallback.
abbrev pub only : Text → Text → Env
unfolding text_eq
only url secret key =
    if text_eq key (codes "DATABASE_URL")
    then url
    else if text_eq key (codes "JWT_SECRET")
    then secret
    else []

-- 15m, 168h and 1m in nanoseconds: the settings of README.md and .env.example.
abbrev pub fallbacks : Text → Text → Config
fallbacks url secret = record {
  app_env = codes "development";
  http_host = codes "0.0.0.0";
  http_port = pos 8080;
  log_level = codes "info";
  database_url = url;
  jwt_secret = secret;
  jwt_access_ttl = pos 900000000000;
  jwt_refresh_ttl = pos 604800000000000;
  redis_url = codes "redis://127.0.0.1:6379/0";
  kafka_brokers = codes "127.0.0.1:9092" ∷ [];
  kafka_topic = codes "notifications";
  kafka_group_id = codes "pulse-notify-workers";
  worker_concurrency = pos 4;
  worker_max_retries = pos 3;
  rate_limit_requests = pos 100;
  rate_limit_window = pos 60000000000;
}

required_lem : (text v : Text) → v ≢ [] → required text v ≡ ok v
unfolding required
required_lem text [] h = absurd (h refl)
required_lem text (c ∷ s) h = refl

long_enough_lem : (text v : Text) → 32 ≤ byte_length v → long_enough text v ≡ ok v
unfolding long_enough
long_enough_lem text v h =
    let short : ltb (byte_length v) 32 ≡ false = ground arith in rw short refl

nonempty_if_long : (v : Text) → 32 ≤ byte_length v → v ≢ []
nonempty_if_long [] h e = omega arith
nonempty_if_long (c ∷ v) h e = cc

module _ (fraction : ℕ → ℕ → ℕ → ℕ) where
  -- With DATABASE_URL and a JWT_SECRET of 32 bytes or more set, nothing else, and no .env file, Load
  -- succeeds, and every other setting has its fallback.
  pub load-fallbacks :
      (dotenv : Env → Env) (url secret : Text)
      → dotenv (only url secret) ≡ only url secret
      → url ≢ []
      → 32 ≤ byte_length secret
      → load fraction dotenv (only url secret) ≡ ok (fallbacks url secret)
  unfolding load read_settings ◌>>=◌ labelled read_int int_from read_duration split_and_trim
      trim_space
  load-fallbacks dotenv url secret no_file url_there long =
      rw
        (
          no_file,
          required_lem (codes "DATABASE_URL is required") url url_there,
          required_lem (codes "JWT_SECRET is required") secret (nonempty_if_long secret long),
          long_enough_lem (codes "JWT_SECRET must be at least 32 characters") secret long,
        )
        refl
