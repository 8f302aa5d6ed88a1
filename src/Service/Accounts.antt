-- ===== src/Service/Accounts.antt =====
-- internal/service/auth.go
use pulse_notify.Prelude.{
  ℕ, pos, Bool, true, false, Option, none, some, [], ◌∷◌, ◌++◌, if◌then◌else◌, Text, codes,
  trim_space, to_lower,
}
use pulse_notify.Errors.{
  Error, Sentinel, sentinel, wrapped, user_not_found, duplicate_email, invalid_credentials,
  email_taken, invalid_refresh, errors_is, ok, err,
}
use pulse_notify.Model.{Uuid, Instant, Duration, User, UserResponse, user_to_response}
use pulse_notify.External.{Postgres, Redis, UuidPackage, Codec, Clock}
use pulse_notify.State.{State, M, ◌>>=◌, ◌>>◌, pure, throw, on_error}
use pulse_notify.Repository.Users
use pulse_notify.Cache.{get, set, delete, get_json, set_json}
use pulse_notify.Auth.{
  JwtPackage, BcryptPackage, RandomBytes, TokenManager, generate, hash_password, check_password,
  generate_refresh_token,
}

-- The service's fields, and the packages that its methods call; `fold` is that of `to_lower`.
pub record AuthService (W : Type 0) : Type 0 where
  pub users : Postgres W
  pub tokens : TokenManager
  pub cache : Option (Redis W)
  pub refresh_ttl : Duration
  pub jwt : JwtPackage W
  pub bcrypt : BcryptPackage W
  pub random : RandomBytes W
  pub uuid : UuidPackage
  pub clock : Clock W
  pub profile_codec : Codec UserResponse
  pub fold : ℕ → ℕ

pub record AuthResult : Type 0 where
  pub access_token : Text
  pub refresh_token : Text
  pub expires_at : Instant
  pub user : UserResponse

-- refreshKeyPrefix + token, profileKeyPrefix + id
abbrev pub refresh_key : Text → Text
refresh_key token = codes "refresh:" ++ token

abbrev pub profile_key : UuidPackage → Uuid → Text
profile_key uuid id = codes "user:profile:" ++ uuid.to_text id

-- 5 * time.Minute
abbrev pub profile_ttl : Duration
profile_ttl = pos 300000000000

-- if errors.Is(err, from) { return to }; return err
abbrev pub replace_error : Sentinel → Sentinel → Error → Error
replace_error from to e = if errors_is e from then sentinel to else e

module _ {W : Type 0} (svc : AuthService W) where
  -- The refresh token in Redis, if there is a cache.
  abbrev pub store_refresh : Text → Uuid → M W (Unit {0})
  store_refresh token id s = elim svc.cache [
    | none ↦ (ok tt, s)
    | some c ↦
        on_error (wrapped (codes "store refresh token"))
          (set c (refresh_key token) (svc.uuid.to_text id) svc.refresh_ttl) s
  ]

  -- issueTokens
  unfoldable pub issue_tokens : User → M W AuthResult
  unfolding generate generate_refresh_token
  issue_tokens user = do
    (access_token, expires_at) ←
        generate svc.jwt svc.tokens svc.uuid svc.clock user.id user.email user.role
    refresh_token ← generate_refresh_token svc.random
    store_refresh refresh_token user.id
    pure (record {
      access_token = access_token;
      refresh_token = refresh_token;
      expires_at = expires_at;
      user = user_to_response svc.uuid.to_text user;
    })

  -- strings.ToLower(strings.TrimSpace(email))
  abbrev pub canonical_email : Text → Text
  canonical_email email = to_lower svc.fold (trim_space email)

  -- (s *AuthService) Signup
  unfoldable pub signup : Text → Text → Text → M W AuthResult
  unfolding issue_tokens hash_password
  signup email password name = do
    hash ← hash_password svc.bcrypt password
    user ←
        on_error (replace_error duplicate_email email_taken)
          (Users.create svc.users (canonical_email email) hash name (codes "user"))
    issue_tokens user

  -- The part of Login after the password's check.
  abbrev pub admit : Bool → User → M W AuthResult
  admit true user = issue_tokens user
  admit false user = throw (sentinel invalid_credentials)

  -- (s *AuthService) Login
  unfoldable pub login : Text → Text → M W AuthResult
  unfolding issue_tokens check_password
  login email password = do
    user ←
        on_error (replace_error user_not_found invalid_credentials)
          (Users.find_by_email svc.users (canonical_email email))
    admit (check_password svc.bcrypt user.password_hash password) user

  -- The part of Refresh after the token's lookup: the old token goes first, whatever Redis says.
  unfoldable pub rotate : Redis W → Text → Uuid → M W AuthResult
  unfolding issue_tokens
  rotate c key user_id s =
      let s1 = (delete c (key ∷ []) s).1 in
      let find =
        on_error (replace_error user_not_found invalid_refresh)
          (Users.find_by_id svc.users user_id) in
      (find >>= issue_tokens) s1

  unfoldable pub refresh_with : Redis W → Text → M W AuthResult
  unfolding rotate
  refresh_with c key s =
      let (r, s1) = get c key s in
      elim r [
        | err e ↦ (err e, s1)
        | ok none ↦ (err (sentinel invalid_refresh), s1)
        | ok (some stored) ↦ elim (svc.uuid.parse stored) [
          | err e ↦ (err (sentinel invalid_refresh), s1)
          | ok user_id ↦ rotate c key user_id s1
        ]
      ]

  -- (s *AuthService) Refresh
  unfoldable pub refresh : Text → M W AuthResult
  unfolding refresh_with
  refresh token s = elim svc.cache [
    | none ↦ (err (sentinel invalid_refresh), s)
    | some c ↦ refresh_with c (refresh_key token) s
  ]

  -- (s *AuthService) Logout
  unfoldable pub logout : Text → M W (Unit {0})
  logout token s = elim svc.cache [
    | none ↦ (ok tt, s)
    | some c ↦ delete c (refresh_key token ∷ []) s
  ]

  -- The cached profile, where there is a cache, it answers, and it holds one.
  abbrev pub cached_profile : Text → M W (Option UserResponse)
  cached_profile key s = elim svc.cache [
    | none ↦ (ok none, s)
    | some c ↦
        let (r, s1) = get_json c svc.profile_codec key s in
        elim r [ ok found ↦ (ok found, s1) | err e ↦ (ok none, s1) ]
  ]

  abbrev pub store_profile : Text → UserResponse → State W → State W
  store_profile key resp s = elim svc.cache [
    | none ↦ s
    | some c ↦ (set_json c svc.profile_codec key resp profile_ttl s).1
  ]

  -- The part of GetProfile after a miss.
  unfoldable pub load_profile : Text → Uuid → M W UserResponse
  load_profile key user_id = do
    user ← Users.find_by_id svc.users user_id
    let resp = user_to_response svc.uuid.to_text user
    λ s. (ok resp, store_profile key resp s)

  abbrev pub or_load : Option UserResponse → M W UserResponse → M W UserResponse
  or_load (some found) load = pure found
  or_load none load = load

  -- (s *AuthService) GetProfile
  unfoldable pub get_profile : Uuid → M W UserResponse
  unfolding load_profile
  get_profile user_id =
      let key = profile_key svc.uuid user_id in
      cached_profile key >>= λ hit. or_load hit (load_profile key user_id)
