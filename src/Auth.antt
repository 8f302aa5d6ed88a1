-- ===== src/Auth.antt =====
-- internal/auth: access tokens, password hashes, refresh tokens. golang-jwt, bcrypt and crypto/rand
-- are interfaces.
pub mod Tokens
use pulse_notify.Prelude.{
  ℕ, ◌+◌, ◌-◌, pos_part, neg_part, Bool, true, false, Option, none, some, Text, codes,
}
use pulse_notify.Errors.{Error, other, wrapped, Result, ok, err}
use pulse_notify.Model.{Uuid, Instant, Duration}
use pulse_notify.External.{Clock, UuidPackage}
use pulse_notify.State.{M, call_result}

-- Claims with the registered claims that are set.
pub record Claims : Type 0 where
  pub user_id : Text
  pub email : Text
  pub role : Text
  pub subject : Text
  pub expires_at : Instant
  pub issued_at : Instant

pub data SigningMethod : Type 0 where
  hs256 : SigningMethod
  other_method : Text → SigningMethod

-- What jwt.ParseWithClaims returns: `claims` is none where token.Claims is not a *Claims.
pub record JwtToken : Type 0 where
  pub claims : Option Claims
  pub valid : Bool

-- github.com/golang-jwt/jwt: NewNumericDate; ParseWithClaims, with its key function; and
-- NewWithClaims with SignedString. Parsing reads the clock of the world.
pub record JwtPackage (W : Type 0) : Type 0 where
  pub numeric_date : Instant → Instant
  pub parse_with_claims : Text → (SigningMethod → Result Text) → W → Result JwtToken
  pub signed_string : SigningMethod → Claims → Text → Result Text

-- golang.org/x/crypto/bcrypt
pub record BcryptPackage (W : Type 0) : Type 0 where
  pub generate_from_password : Text → ℕ → W → Result Text × W
  pub compare_hash_and_password : Text → Text → Option Error

-- rand.Read of 32 bytes, and base64.RawURLEncoding.EncodeToString
pub record RandomBytes (W : Type 0) : Type 0 where
  pub read : ℕ → W → Result Text × W
  pub encode_to_string : Text → Text

pub record TokenManager : Type 0 where
  pub secret : Text
  pub ttl : Duration

-- t.Add(d)
abbrev pub add_duration : Instant → Duration → Instant
add_duration t d = t + pos_part d - neg_part d

module _ {W : Type 0} (jwt : JwtPackage W) (m : TokenManager) where
  -- The claims that Generate signs, at two readings of the clock.
  abbrev pub new_claims : UuidPackage → Uuid → Text → Text → Instant → Instant → Claims
  new_claims uuid user_id email role expires_at issued_at = record {
    user_id = uuid.to_text user_id;
    email = email;
    role = role;
    subject = uuid.to_text user_id;
    expires_at = jwt.numeric_date expires_at;
    issued_at = jwt.numeric_date issued_at;
  }

  -- (m *TokenManager) Generate: the token and its expiry.
  unfoldable pub generate : UuidPackage → Clock W → Uuid → Text → Text → M W (Text × Instant)
  generate uuid clock user_id email role s =
      let (t1, w1) = clock s.world in
      let expires_at = add_duration t1 m.ttl in
      let (t2, w2) = clock w1 in
      let s2 = record s { world = w2 } in
      (
        elim (jwt.signed_string hs256 (new_claims uuid user_id email role expires_at t2) m.secret) [
          | ok signed ↦ ok (signed, expires_at)
          | err e ↦ err (wrapped (codes "sign token") e)
        ],
        s2,
      )

  -- The key function of Parse: only HS256 gets the secret.
  unfoldable pub key_for : SigningMethod → Result Text
  key_for hs256 = ok m.secret
  key_for (other_method name) = err (other (codes "unexpected signing method"))

  abbrev checked : Option Claims → Bool → Result Claims
  checked (some claims) true = ok claims
  checked _ _ = err (other (codes "invalid token"))

  -- (m *TokenManager) Parse
  unfoldable pub parse : Text → W → Result Claims
  parse token w = elim (jwt.parse_with_claims token key_for w) [
    | err e ↦ err e
    | ok t ↦ checked t.claims t.valid
  ]

abbrev pub bcrypt_cost : ℕ
bcrypt_cost = 12

module _ {W : Type 0} (bcrypt : BcryptPackage W) where
  -- HashPassword
  unfoldable pub hash_password : Text → M W Text
  hash_password password = call_result (bcrypt.generate_from_password password bcrypt_cost)

  -- CheckPassword
  unfoldable pub check_password : Text → Text → Bool
  check_password hash password = elim (bcrypt.compare_hash_and_password hash password) [
    | none ↦ true
    | some e ↦ false
  ]

-- GenerateRefreshToken
unfoldable pub generate_refresh_token : {W : Type 0} → RandomBytes W → M W Text
generate_refresh_token random s =
    let (r, s1) = call_result (random.read 32) s in
    (
      elim r [
        | ok bytes ↦ ok (random.encode_to_string bytes)
        | err e ↦ err (wrapped (codes "generate refresh token") e)
      ],
      s1,
    )
