-- ===== src/Config/Ranges.antt =====
-- The bounds that the rest of the program relies on, of a configuration that Load of
-- internal/config/config.go returned.
use pulse_notify.Prelude.{
  ℕ, ◌≤◌, ◌<◌, ℤ, pos, negsuc, ltb_ℤ, IsInt64, int64_half, ◌≡◌, ◌≢◌, refl, false, arith, [],
}
use pulse_notify.Errors.{ok}
use pulse_notify.Parsing.Bounds.{atoi-IsInt64, parse_duration-IsInt64}
use pulse_notify.Config.{Env, Config, byte_length, load}
use pulse_notify.Config.Loading.{load_iff, Reads, app_env_of, after_dotenv}

-- The numbers from a lower bound that an `int` can hold.
abbrev pub IsCount : ℕ → ℤ → Type 0
IsCount least v = (n : ℕ) × (v ≡ pos n) × (least ≤ n) × (n < int64_half)

pub record IsUsable (c : Config) : Type 0 where
  pub database_there : c.database_url ≢ []
  pub secret_long : 32 ≤ byte_length c.jwt_secret
  pub port_fits : IsInt64 c.http_port
  pub access_fits : IsInt64 c.jwt_access_ttl
  pub refresh_fits : IsInt64 c.jwt_refresh_ttl
  pub window_fits : IsInt64 c.rate_limit_window
  pub some_workers : IsCount 1 c.worker_concurrency
  pub retries_fit : IsCount 0 c.worker_max_retries
  pub requests_fit : IsCount 0 c.rate_limit_requests

int_from-IsCount : (least : ℕ) (v : ℤ) → IsInt64 v → ltb_ℤ v (pos least) ≡ false → IsCount least v
int_from-IsCount least (pos n) fits bound = (n, refl, ground arith, fits)
int_from-IsCount least (negsuc n) fits bound = absurd (ground arith)

module _ (fraction : ℕ → ℕ → ℕ → ℕ) where
  -- A configuration that Load returns has a database URL, a secret of 32 bytes or more, at least
  -- one worker, retries and requests that are not negative, and numbers and durations of 64 bits.
  pub load-IsUsable :
      (dotenv : Env → Env) (before : Env) (c : Config)
      → load fraction dotenv before ≡ ok c
      → IsUsable c
  load-IsUsable dotenv before c loaded =
      let r : Reads fraction (app_env_of before) (after_dotenv dotenv before) c =
        (load_iff fraction dotenv before c).0 loaded in
      record {
        database_there = r.database_url.1;
        secret_long = r.jwt_secret.1;
        port_fits = atoi-IsInt64 _ c.http_port r.http_port;
        access_fits = parse_duration-IsInt64 fraction _ c.jwt_access_ttl r.jwt_access_ttl;
        refresh_fits = parse_duration-IsInt64 fraction _ c.jwt_refresh_ttl r.jwt_refresh_ttl;
        window_fits = parse_duration-IsInt64 fraction _ c.rate_limit_window r.rate_limit_window;
        some_workers =
            int_from-IsCount 1 c.worker_concurrency
              (atoi-IsInt64 _ c.worker_concurrency r.worker_concurrency.0) r.worker_concurrency.1;
        retries_fit =
            int_from-IsCount 0 c.worker_max_retries
              (atoi-IsInt64 _ c.worker_max_retries r.worker_max_retries.0) r.worker_max_retries.1;
        requests_fit =
            int_from-IsCount 0 c.rate_limit_requests
              (atoi-IsInt64 _ c.rate_limit_requests r.rate_limit_requests.0)
              r.rate_limit_requests.1;
      }
