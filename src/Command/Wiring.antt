-- ===== src/Command/Wiring.antt =====
-- What the two commands build from the configuration: the dependencies of the router
-- (cmd/api/main.go) and the pool of workers (cmd/worker/main.go).
use pulse_notify.Prelude.{
  ℕ, ◌+◌, ◌-◌, ◌<◌, ◌≤◌, ◌==◌, Bool-cases, inl, inr, ℤ, pos, ◌+ℤ◌, wrap64, int64_half, ◌≡◌, ◌≢◌, ap,
  ◌∙◌, some, List, Text, codes, ◌++◌, arith,
}
use pulse_notify.Errors.{ok}
use pulse_notify.Model.{
  Instant, Duration, User, UserResponse, NotificationResponse, NotificationEvent,
}
use pulse_notify.External.{Postgres, Redis, UuidPackage, Codec, KafkaWriter, Clock}
use pulse_notify.State.{State}
use pulse_notify.Auth.{JwtPackage, BcryptPackage, RandomBytes, TokenManager, Claims}
use pulse_notify.Auth.Tokens.{JwtLaws}
use pulse_notify.Http.{GinContext, Bind}
use pulse_notify.Events.{publish, new_producer}
use pulse_notify.Config.{Env, Config, load}
use pulse_notify.Config.Ranges.{load-IsUsable}
use pulse_notify.Process.{WriterConfig}
use pulse_notify.Service.Accounts.{AuthService, AuthResult, issue_tokens}
use pulse_notify.Service.Notifications.{NotificationService}
use pulse_notify.Service.Bearer.{issue_tokens-jwt_auth}
use pulse_notify.Handler.Accounts.{SignupRequest, LoginRequest, RefreshRequest}
use pulse_notify.Handler.Notifications.{CreateNotificationRequest}
use pulse_notify.Handler.Health.{HealthHandler}
use pulse_notify.Router.{Deps, jwt_middleware}
use pulse_notify.Middleware.Access.{with_claims}
use pulse_notify.Worker.Notifier.{Context, Random, SimulatedNotifier}
use pulse_notify.Worker.Notifier
use pulse_notify.Worker.Pool.{Consumer, Pool, new_pool, pool_size, bound}

-- The packages that the components call, and the connections that the API has opened.
pub record Packages (W : Type 0) : Type 0 where
  pub postgres : Postgres W
  pub redis : Redis W
  pub writer : WriterConfig → KafkaWriter W
  pub jwt : JwtPackage W
  pub bcrypt : BcryptPackage W
  pub random : RandomBytes W
  pub uuid : UuidPackage
  pub clock : Clock W
  pub profile_codec : Codec UserResponse
  pub list_codec : Codec (List NotificationResponse)
  pub event_codec : Codec NotificationEvent
  pub fold : ℕ → ℕ
  pub bind_signup : Bind SignupRequest
  pub bind_login : Bind LoginRequest
  pub bind_refresh : Bind RefreshRequest
  pub bind_notification : Bind CreateNotificationRequest

-- NewTokenManager
abbrev pub new_token_manager : Text → Duration → TokenManager
new_token_manager secret ttl = record { secret = secret; ttl = ttl }

module _ {W : Type 0} (k : Packages W) where
  -- NewAuthService
  abbrev pub new_auth_service : TokenManager → Duration → AuthService W
  new_auth_service tokens refresh_ttl = record {
    users = k.postgres;
    tokens = tokens;
    cache = some k.redis;
    refresh_ttl = refresh_ttl;
    jwt = k.jwt;
    bcrypt = k.bcrypt;
    random = k.random;
    uuid = k.uuid;
    clock = k.clock;
    profile_codec = k.profile_codec;
    fold = k.fold;
  }

  -- NewNotificationService
  abbrev pub new_notification_service : WriterConfig → NotificationService W
  new_notification_service writer = record {
    repo = k.postgres;
    producer = publish k.event_codec (k.writer writer);
    cache = some k.redis;
    uuid = k.uuid;
    clock = k.clock;
    list_codec = k.list_codec;
    fold = k.fold;
  }

  -- NewHealthHandler, at a reading of the clock
  abbrev pub new_health_handler : Instant → HealthHandler W
  new_health_handler now = record {
    started_at = now;
    db = some k.postgres;
    cache = some k.redis;
    clock = k.clock;
  }

  -- The dependencies that main hands to the router.
  abbrev pub api_deps : Config → Instant → Deps W
  api_deps cfg now =
      let token_mgr = new_token_manager cfg.jwt_secret cfg.jwt_access_ttl in
      record {
        cache = some k.redis;
        rate_limit_requests = cfg.rate_limit_requests;
        rate_limit_window = cfg.rate_limit_window;
        jwt = k.jwt;
        token_manager = token_mgr;
        uuid_package = k.uuid;
        health = new_health_handler now;
        auth = new_auth_service token_mgr cfg.jwt_refresh_ttl;
        notification = new_notification_service (new_producer cfg.kafka_brokers cfg.kafka_topic);
        bind_signup = k.bind_signup;
        bind_login = k.bind_login;
        bind_refresh = k.bind_refresh;
        bind_notification = k.bind_notification;
      }

  -- As the command wires its parts, the access token of a successful call of the account service
  -- passes the router's JWT middleware until it expires, as the same user with the same role.
  pub api_deps-jwt_middleware :
      (laws : JwtLaws k.jwt) (cfg : Config) (now : Instant) (user : User) (r : AuthResult)
      (s s' t : State W) (c : GinContext)
      → issue_tokens (api_deps cfg now).auth user s ≡ (ok r, s')
      → laws.now t.world < k.jwt.numeric_date r.expires_at
      → c.authorization ≡ codes "Bearer " ++ r.access_token
      → (claims : Claims) × (claims.email ≡ user.email)
        × (claims.role ≡ user.role)
        × (jwt_middleware (api_deps cfg now) c t ≡ (with_claims user.id claims c, t))
  api_deps-jwt_middleware laws cfg now user r s s' t c issued fresh sent =
      issue_tokens-jwt_auth (api_deps cfg now).auth laws user r s s' t c issued fresh sent

pool_size_lem : (v : ℤ) (n : ℕ) → v ≡ pos n → 1 ≤ n → pool_size v ≡ v
pool_size_lem v n same one = rw same (ground arith)

successor_lem : (n : ℕ) → n < int64_half - 1 → wrap64 (pos n +ℤ pos 1) ≡ pos (n + 1)
unfolding wrap64 ◌+ℤ◌
successor_lem n small = ground arith

below_largest :
    (v : ℤ) (n : ℕ) → v ≡ pos n → v ≢ pos (int64_half - 1) → n < int64_half → n < int64_half - 1
below_largest v n same other fits = elim (Bool-cases (n == int64_half - 1)) [
  | inl largest ↦
      let equal : n ≡ int64_half - 1 = ground arith in absurd (other (same ∙ ap pos equal))
  | inr smaller ↦ ground arith
]

-- NewSimulatedNotifier
abbrev pub new_simulated_notifier : {F : Type 0} → F → SimulatedNotifier F
new_simulated_notifier failure_rate = record { failure_rate = failure_rate }

module _ {W F : Type 0} (consumer : Consumer W) (repo : Postgres W) (ctx : Context W)
    (random : Random W F) (uuid : UuidPackage) (codec : Codec NotificationEvent) where
  -- The pool of workers, with the failure rate of its simulated notifier (0.25).
  abbrev pub worker_pool : F → Config → Pool W
  worker_pool quarter cfg =
      new_pool consumer repo (Notifier.send ctx random (new_simulated_notifier quarter))
        cfg.worker_concurrency cfg.worker_max_retries ctx uuid codec

  -- With a configuration that Load returned the pool has the configured workers, one at least, and
  -- tries each delivery once more than the configured retries: unless the retries are the largest
  -- int, since then their successor wraps and nothing is sent.
  pub worker_pool-bound :
      (fraction : ℕ → ℕ → ℕ → ℕ) (dotenv : Env → Env) (before : Env) (cfg : Config) (quarter : F)
      → load fraction dotenv before ≡ ok cfg
      → cfg.worker_max_retries ≢ pos (int64_half - 1)
      → ((worker_pool quarter cfg).concurrency ≡ cfg.worker_concurrency)
        × ((n : ℕ) × (cfg.worker_max_retries ≡ pos n)
            × (bound (worker_pool quarter cfg) ≡ pos (n + 1)))
  unfolding new_pool
  worker_pool-bound fraction dotenv before cfg quarter loaded small =
      let u = load-IsUsable fraction dotenv before cfg loaded in
      let (workers, same_workers, one, _) = u.some_workers in
      let (n, same, zero_least, fits) = u.retries_fit in
      (
        pool_size_lem cfg.worker_concurrency workers same_workers one,
        (
          n,
          same,
          ap (λ v. wrap64 (v +ℤ pos 1)) same
              ∙ successor_lem n (below_largest cfg.worker_max_retries n same small fits),
        ),
      )
