-- ===== src/Config/Loading.antt =====
-- What Load of internal/config/config.go accepts, and what it refuses.
use pulse_notify.Prelude.{
  ℕ, ◌≤◌, ℤ, pos, ltb_ℤ, ltb, ◌≡◌, ◌≢◌, ◌↔◌, refl, sym, ap, ◌∙◌, subst, false, Bool-cases, inl, inr,
  Option, none, some, Option-cases, arith, [], ◌∷◌, if◌then◌else◌, Text, text_eq, codes,
}
use pulse_notify.Errors.{Error, Result, ok, err}
use pulse_notify.Model.{Duration}
use pulse_notify.Parsing.{atoi}
use pulse_notify.Parsing.Duration.{parse_duration}
use pulse_notify.Parsing.Ends.{parse_duration-ne-none}
use pulse_notify.Config.{
  Env, Config, ◌>>=◌, get_env, byte_length, labelled, or_error, the_value, read_int, int_from,
  read_duration, required, long_enough, read_settings, load, split_and_trim,
}

>>=-eq-ok :
    {A B P : Type 0} {m : Result A} {k : A → Result B} {b : B}
    → m >>= k ≡ ok b
    → ((a : A) → m ≡ ok a → k a ≡ ok b → P)
    → P
unfolding ◌>>=◌
>>=-eq-ok {m = ok a} h use_it = use_it a refl h
>>=-eq-ok {m = err e} h use_it = cc

ok-then :
    {A B : Type 0} (k : A → Result B) {m : Result A} {a : A} {r : Result B}
    → m ≡ ok a
    → k a ≡ r
    → m >>= k ≡ r
unfolding ◌>>=◌
ok-then k {m = ok b} e h = cc
ok-then k {m = err x} e h = cc

labelled-eq-ok :
    {A : Type 0} (text : Text) (r : Result A) {a : A} → labelled text r ≡ ok a → r ≡ ok a
unfolding labelled
labelled-eq-ok text (ok b) h = h
labelled-eq-ok text (err e) h = cc

or_error-eq-ok : {A : Type 0} (e : Error) (o : Option A) {a : A} → or_error e o ≡ ok a → o ≡ some a
or_error-eq-ok e none h = cc
or_error-eq-ok e (some b) h = cc

the_value-eq : {A : Type 0} (o : Option A) (h : o ≢ none) {a : A} → the_value o h ≡ a → o ≡ some a
the_value-eq none h e = absurd (h refl)
the_value-eq (some b) h e = ap some e

the_value-some : {A : Type 0} (o : Option A) (h : o ≢ none) {a : A} → o ≡ some a → the_value o h ≡ a
the_value-some none h e = absurd (h refl)
the_value-some (some b) h e = cc

required_iff : (text v w : Text) → (required text v ≡ ok w) ↔ ((v ≡ w) × (w ≢ []))
unfolding required
required_iff text [] w = (λ h. cc, λ (same, there). absurd (there (sym same)))
required_iff text (c ∷ v) w = (λ h. (cc, λ e. cc), λ (same, there). cc)

long_enough_iff :
    (text v : Text) (w : Text) → (long_enough text v ≡ ok w) ↔ ((v ≡ w) × (32 ≤ byte_length w))
unfolding long_enough
long_enough_iff text v w = elim (Bool-cases (ltb (byte_length v) 32)) [
  | inl short ↦
      (λ h. absurd (ground arith), λ (same, long). absurd (ground (arith, ap byte_length same)))
  | inr long ↦ (
    λ h. let same : v ≡ w = ground arith in (same, ground (arith, ap byte_length same)),
    λ (same, _). ground arith,
  )
]

int_from_iff :
    (least : ℤ) (text s : Text) (v : ℤ)
    → (int_from least text s ≡ ok v) ↔ ((atoi s ≡ some v) × (ltb_ℤ v least ≡ false))
unfolding int_from
int_from_iff least text s v = elim (Option-cases (atoi s)) [
  | inl none_there ↦ (λ h. absurd (ground arith), λ (h, bound). cc)
  | inr (u, read) ↦ elim (Bool-cases (ltb_ℤ u least)) [
    | inl small ↦ (
      λ h. absurd (ground arith),
      λ (h, bound).
          let same : u ≡ v = cc in absurd (cc (ap (λ x. ltb_ℤ x least) same, small, bound)),
    )
    | inr fits ↦ (
      λ h. let same : u ≡ v = ground arith in (cc, ap (λ x. ltb_ℤ x least) (sym same) ∙ fits),
      λ (h, bound). let same : u ≡ v = cc in ground arith,
    )
  ]
]

int_from-eq-ok :
    (least : ℤ) (text s : Text) (v : ℤ)
    → int_from least text s ≡ ok v
    → (atoi s ≡ some v) × (ltb_ℤ v least ≡ false)
int_from-eq-ok least text s v = (int_from_iff least text s v).0

int_from-in_bound :
    (least : ℤ) (text s : Text) (v : ℤ)
    → (atoi s ≡ some v) × (ltb_ℤ v least ≡ false)
    → int_from least text s ≡ ok v
int_from-in_bound least text s v = (int_from_iff least text s v).1

secret_lem :
    (text1 text2 v : Text) {g w : Text}
    → required text1 v ≡ ok g
    → long_enough text2 g ≡ ok w
    → (v ≡ w) × (32 ≤ byte_length w)
secret_lem text1 text2 v {g} {w} given long =
    let (same, enough) = (long_enough_iff text2 g w).0 long in
    (((required_iff text1 v g).0 given).0 ∙ same, enough)

given_lem : (text v : Text) {w : Text} → v ≡ w → 32 ≤ byte_length w → required text v ≡ ok w
given_lem text v {w} same long =
    (required_iff text v w).1 (same, λ e. omega (arith, ap byte_length e, long))

abbrev pub app_env_of : Env → Text
app_env_of before = get_env before (codes "APP_ENV") (codes "development")

abbrev pub after_dotenv : (Env → Env) → Env → Env
after_dotenv dotenv before =
    if text_eq (app_env_of before) (codes "development") then dotenv before else before

ok-injective : {A : Type 0} {a b : A} → ok a ≡ ok b → a ≡ b
ok-injective h = cc

module _ (fraction : ℕ → ℕ → ℕ → ℕ) where
  -- What a configuration holds of an environment, and the bounds of its settings.
  pub record Reads (app : Text) (env : Env) (c : Config) : Type 0 where
    pub app_env : app ≡ c.app_env
    pub http_host : get_env env (codes "HTTP_HOST") (codes "0.0.0.0") ≡ c.http_host
    pub http_port : atoi (get_env env (codes "HTTP_PORT") (codes "8080")) ≡ some c.http_port
    pub log_level : get_env env (codes "LOG_LEVEL") (codes "info") ≡ c.log_level
    pub database_url : (env (codes "DATABASE_URL") ≡ c.database_url) × (c.database_url ≢ [])
    pub jwt_secret : (env (codes "JWT_SECRET") ≡ c.jwt_secret) × (32 ≤ byte_length c.jwt_secret)
    pub jwt_access_ttl :
        parse_duration fraction (get_env env (codes "JWT_ACCESS_TTL") (codes "15m"))
        ≡ some (ok c.jwt_access_ttl)
    pub jwt_refresh_ttl :
        parse_duration fraction (get_env env (codes "JWT_REFRESH_TTL") (codes "168h"))
        ≡ some (ok c.jwt_refresh_ttl)
    pub redis_url : get_env env (codes "REDIS_URL") (codes "redis://127.0.0.1:6379/0") ≡ c.redis_url
    pub kafka_brokers :
        split_and_trim (get_env env (codes "KAFKA_BROKERS") (codes "127.0.0.1:9092"))
        ≡ c.kafka_brokers
    pub kafka_topic : get_env env (codes "KAFKA_TOPIC") (codes "notifications") ≡ c.kafka_topic
    pub kafka_group_id :
        get_env env (codes "KAFKA_GROUP_ID") (codes "pulse-notify-workers") ≡ c.kafka_group_id
    pub worker_concurrency :
        (atoi (get_env env (codes "WORKER_CONCURRENCY") (codes "4")) ≡ some c.worker_concurrency)
        × (ltb_ℤ c.worker_concurrency (pos 1) ≡ false)
    pub worker_max_retries :
        (atoi (get_env env (codes "WORKER_MAX_RETRIES") (codes "3")) ≡ some c.worker_max_retries)
        × (ltb_ℤ c.worker_max_retries (pos 0) ≡ false)
    pub rate_limit_requests :
        (atoi (get_env env (codes "RATE_LIMIT_REQUESTS") (codes "100"))
          ≡ some c.rate_limit_requests)
        × (ltb_ℤ c.rate_limit_requests (pos 0) ≡ false)
    pub rate_limit_window :
        parse_duration fraction (get_env env (codes "RATE_LIMIT_WINDOW") (codes "1m"))
        ≡ some (ok c.rate_limit_window)

  read_duration-eq-ok :
      (text s : Text) {v : Duration}
      → labelled text (read_duration fraction s) ≡ ok v
      → parse_duration fraction s ≡ some (ok v)
  unfolding read_duration
  read_duration-eq-ok text s h =
      the_value-eq (parse_duration fraction s) (parse_duration-ne-none fraction s)
        (labelled-eq-ok text (read_duration fraction s) h)

  read_int-eq-ok : (text s : Text) {v : ℤ} → labelled text (read_int s) ≡ ok v → atoi s ≡ some v
  unfolding read_int
  read_int-eq-ok text s h = or_error-eq-ok _ (atoi s) (labelled-eq-ok text (read_int s) h)

  the_rest :
      (app : Text) (env : Env) (c : Config)
      → Reads app env c
      → ok (record {
        app_env = app;
        http_host = get_env env (codes "HTTP_HOST") (codes "0.0.0.0");
        http_port = c.http_port;
        log_level = get_env env (codes "LOG_LEVEL") (codes "info");
        database_url = c.database_url;
        jwt_secret = c.jwt_secret;
        jwt_access_ttl = c.jwt_access_ttl;
        jwt_refresh_ttl = c.jwt_refresh_ttl;
        redis_url = get_env env (codes "REDIS_URL") (codes "redis://127.0.0.1:6379/0");
        kafka_brokers =
            split_and_trim (get_env env (codes "KAFKA_BROKERS") (codes "127.0.0.1:9092"));
        kafka_topic = get_env env (codes "KAFKA_TOPIC") (codes "notifications");
        kafka_group_id = get_env env (codes "KAFKA_GROUP_ID") (codes "pulse-notify-workers");
        worker_concurrency = c.worker_concurrency;
        worker_max_retries = c.worker_max_retries;
        rate_limit_requests = c.rate_limit_requests;
        rate_limit_window = c.rate_limit_window;
      })
        ≡ ok c
  the_rest app env c r = λ i. ok (record c {
    app_env = r.app_env i;
    http_host = r.http_host i;
    log_level = r.log_level i;
    redis_url = r.redis_url i;
    kafka_brokers = r.kafka_brokers i;
    kafka_topic = r.kafka_topic i;
    kafka_group_id = r.kafka_group_id i;
  })

  settings-Reads :
      (app : Text) (env : Env) (c : Config)
      → read_settings fraction app env ≡ ok c
      → Reads app env c
  unfolding read_settings
  settings-Reads app env c h = >>=-eq-ok h λ port port_read h1.
      >>=-eq-ok h1 λ access access_read h2. >>=-eq-ok h2 λ refresh refresh_read h3.
        >>=-eq-ok h3 λ url url_read h4. >>=-eq-ok h4 λ given given_read h5.
          >>=-eq-ok h5 λ secret secret_read h6. >>=-eq-ok h6 λ concurrency concurrency_read h7.
            >>=-eq-ok h7 λ retries retries_read h8. >>=-eq-ok h8 λ requests requests_read h9.
              >>=-eq-ok h9 λ window window_read h10.
                subst (Reads app env) (ok-injective h10) (record {
                  app_env = refl;
                  http_host = refl;
                  http_port = search read_int-eq-ok;
                  log_level = refl;
                  database_url = (required_iff _ (env (codes "DATABASE_URL")) url).0 url_read;
                  jwt_secret = secret_lem _ _ (env (codes "JWT_SECRET")) given_read secret_read;
                  jwt_access_ttl = search read_duration-eq-ok;
                  jwt_refresh_ttl = search read_duration-eq-ok;
                  redis_url = refl;
                  kafka_brokers = refl;
                  kafka_topic = refl;
                  kafka_group_id = refl;
                  worker_concurrency = search int_from-eq-ok;
                  worker_max_retries = search int_from-eq-ok;
                  rate_limit_requests = search int_from-eq-ok;
                  rate_limit_window = search read_duration-eq-ok;
                })

  read_duration-some :
      (text s : Text) {v : Duration}
      → parse_duration fraction s ≡ some (ok v)
      → labelled text (read_duration fraction s) ≡ ok v
  unfolding read_duration labelled
  read_duration-some text s h =
      ap (labelled text)
        (the_value-some (parse_duration fraction s) (parse_duration-ne-none fraction s) h)

  read_int-some : (text s : Text) {v : ℤ} → atoi s ≡ some v → labelled text (read_int s) ≡ ok v
  unfolding read_int labelled
  read_int-some text s h = rw h refl

  Reads-settings :
      (app : Text) (env : Env) (c : Config)
      → Reads app env c
      → read_settings fraction app env ≡ ok c
  unfolding read_settings
  Reads-settings app env c r = ok-then _ (search read_int-some) (
      ok-then _ (search read_duration-some) (
        ok-then _ (search read_duration-some) (
          ok-then _ ((required_iff _ (env (codes "DATABASE_URL")) c.database_url).1 r.database_url)
            (ok-then _ (given_lem _ (env (codes "JWT_SECRET")) r.jwt_secret.0 r.jwt_secret.1) (
              ok-then _ ((long_enough_iff _ c.jwt_secret c.jwt_secret).1 (refl, r.jwt_secret.1)) (
                ok-then _ (search int_from-in_bound) (
                  ok-then _ (search int_from-in_bound) (
                    ok-then _ (search int_from-in_bound)
                      (ok-then _ (search read_duration-some) (the_rest app env c r))))))))))

  -- Load returns a configuration exactly if every setting can be read and is within its bounds, and
  -- then the configuration holds what was read.
  pub load_iff :
      (dotenv : Env → Env) (before : Env) (c : Config)
      → (load fraction dotenv before ≡ ok c)
        ↔ Reads (app_env_of before) (after_dotenv dotenv before) c
  unfolding load
  load_iff dotenv before c = (settings-Reads _ _ c, Reads-settings _ _ c)
