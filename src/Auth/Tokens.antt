-- ===== src/Auth/Tokens.antt =====
-- That Parse of internal/auth/jwt.go reads what Generate signed.
use pulse_notify.Prelude.{◌<◌, ◌≡◌, refl, sym, ap, ◌∙◌, subst, true, some, Text, arith, inl, inr}
use pulse_notify.Errors.{Result, ok, Result-cases}
use pulse_notify.Model.{Uuid, Instant}
use pulse_notify.External.{UuidPackage, Clock}
use pulse_notify.State.{State}
use pulse_notify.Auth.{
  Claims, SigningMethod, hs256, JwtPackage, TokenManager, new_claims, add_duration, generate,
  key_for, parse,
}

-- The documented behaviour of golang-jwt: NewNumericDate cuts a time to a precision, one second as
-- the package is set, so a time that it has cut stays as it is; and a token that was signed with
-- HS256 and a secret, whose times are cut in this way, is valid, with its claims, for a key function
-- that gives this secret to HS256, until its expiry.
pub record JwtLaws {W : Type 0} (jwt : JwtPackage W) : Type 0 where
  pub now : W → Instant
  pub cut_twice : (t : Instant) → jwt.numeric_date (jwt.numeric_date t) ≡ jwt.numeric_date t
  pub signed_is_valid :
      (claims : Claims) (secret signed : Text) (key : SigningMethod → Result Text) (w : W)
      → jwt.numeric_date claims.expires_at ≡ claims.expires_at
      → jwt.numeric_date claims.issued_at ≡ claims.issued_at
      → jwt.signed_string hs256 claims secret ≡ ok signed
      → key hs256 ≡ ok secret
      → now w < claims.expires_at
      → jwt.parse_with_claims signed key w ≡ ok (record { claims = some claims; valid = true })

module _ {W : Type 0} (jwt : JwtPackage W) (laws : JwtLaws jwt) (m : TokenManager) where
  -- What Generate returned is parsed, until it expires, to claims with the user's id, address and
  -- role.
  pub generate-parse :
      (uuid : UuidPackage) (clock : Clock W) (id : Uuid) (email role token : Text)
      (expires_at : Instant) (s s' : State W) (w : W)
      → generate jwt m uuid clock id email role s ≡ (ok (token, expires_at), s')
      → laws.now w < jwt.numeric_date expires_at
      → (claims : Claims) × (parse jwt m token w ≡ ok claims)
        × (claims.user_id ≡ uuid.to_text id)
        × (claims.email ≡ email)
        × (claims.role ≡ role)
  unfolding generate parse key_for
  generate-parse uuid clock id email role token expires_at s s' w done fresh =
      let (t1, w1) = clock s.world in
      let (t2, w2) = clock w1 in
      let claims = new_claims jwt m uuid id email role (add_duration t1 m.ttl) t2 in
      elim (Result-cases (jwt.signed_string hs256 claims m.secret)) [
        | inr (e, failed) ↦ absurd (ground arith)
        | inl (signed, good) ↦
            let same_token : signed ≡ token = ground arith in
            let same_time : add_duration t1 m.ttl ≡ expires_at = ground arith in
            let valid : jwt.parse_with_claims token (key_for jwt m) w
                ≡ ok (record { claims = some claims; valid = true }) =
              laws.signed_is_valid claims m.secret token (key_for jwt m) w
                (laws.cut_twice (add_duration t1 m.ttl)) (laws.cut_twice t2)
                (good ∙ ap ok same_token) refl
                (subst (λ t. laws.now w < jwt.numeric_date t) (sym same_time) fresh) in
            (claims, rw (parse, valid) refl, refl, refl, refl)
      ]
