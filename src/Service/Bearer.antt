-- ===== src/Service/Bearer.antt =====
-- That the access tokens of internal/service/auth.go open the routes behind the middleware JWT.
use pulse_notify.Prelude.{
  ◌<◌, ◌≡◌, refl, sym, ap, inl, inr, ◌∙◌, subst, false, some, [], ◌++◌, codes, text_eq, arith,
}
use pulse_notify.Errors.{ok, Result-cases}
use pulse_notify.Model.{User}
use pulse_notify.State.{State}
use pulse_notify.Auth.{Claims, generate}
use pulse_notify.Auth.Tokens.{JwtLaws, generate-parse}
use pulse_notify.Http.{GinContext}
use pulse_notify.Middleware.Access.{split_space, is_bearer, with_claims, jwt_auth}
use pulse_notify.Service.Accounts.{AuthService, AuthResult, issue_tokens}

module _ {W : Type 0} (svc : AuthService W) (laws : JwtLaws svc.jwt) where
  -- Until it expires, the access token of a successful issueTokens, sent as a bearer token, passes
  -- JWT, which sets the user's id, address and role for the handler and changes nothing else.
  pub issue_tokens-jwt_auth :
      (user : User) (r : AuthResult) (s s' t : State W) (c : GinContext)
      → issue_tokens svc user s ≡ (ok r, s')
      → laws.now t.world < svc.jwt.numeric_date r.expires_at
      → c.authorization ≡ codes "Bearer " ++ r.access_token
      → (claims : Claims) × (claims.email ≡ user.email)
        × (claims.role ≡ user.role)
        × (jwt_auth svc.jwt svc.tokens svc.uuid c t ≡ (with_claims user.id claims c, t))
  unfolding issue_tokens jwt_auth split_space is_bearer text_eq
  issue_tokens-jwt_auth user r s s' t c issued fresh sent =
      let q = generate svc.jwt svc.tokens svc.uuid svc.clock user.id user.email user.role s in
      elim (Result-cases q.0) [
        | inr (e, failed) ↦ absurd (ground arith)
        | inl ((token, expires_at), got) ↦
            let same_token : token ≡ r.access_token = ground arith in
            let same_time : expires_at ≡ r.expires_at = ground arith in
            let (claims, parsed, id_text, email, role) =
              generate-parse svc.jwt laws svc.tokens svc.uuid svc.clock user.id user.email user.role
                token expires_at s q.1 t.world (ap (λ o. (o, q.1)) got)
                (subst (λ x. laws.now t.world < svc.jwt.numeric_date x) (sym same_time) fresh) in
            let header : c.authorization ≡ codes "Bearer " ++ token =
              sent ∙ ap (λ x. codes "Bearer " ++ x) (sym same_token) in
            let present : text_eq c.authorization [] ≡ false = ap (λ x. text_eq x []) header in
            let split : split_space c.authorization ≡ some (codes "Bearer", token) =
              ap split_space header in
            let known : svc.uuid.parse claims.user_id ≡ ok user.id =
              ap svc.uuid.parse id_text ∙ svc.uuid.parse-to_text user.id in
            (claims, email, role, rw (jwt_auth, present, split, parsed, known) refl)
      ]
