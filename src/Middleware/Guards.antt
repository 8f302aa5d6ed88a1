-- ===== src/Middleware/Guards.antt =====
-- Who gets through the middleware of internal/middleware/jwt.go and rbac.go.
use pulse_notify.Prelude.{
  ◌≡◌, refl, ap, ◌≢◌, sym, ◌∙◌, ◌⊎◌, inl, inr, true, false, Bool-cases, Option, none, some,
  Option-cases, List, [], ◌∷◌, arith, Text, codes, text_eq, text_eq_iff,
}
use pulse_notify.Errors.{ok, Result-cases}
use pulse_notify.Model.{Uuid}
use pulse_notify.External.{UuidPackage}
use pulse_notify.State.{State}
use pulse_notify.Auth.{JwtPackage, TokenManager, Claims, parse}
use pulse_notify.Http.{GinContext, HandlerFunc, Response, error_body, respond}
use pulse_notify.Middleware.Access.{
  split_space, is_bearer, with_claims, jwt_auth, require_role, unless_aborted, guarded,
}

not_empty : (s : Text) → text_eq s [] ≡ false → s ≢ []
not_empty s h e = ground (arith, text_eq_iff s [])

module _ {W : Type 0} (m : HandlerFunc W) (ms : List (HandlerFunc W)) (handler : HandlerFunc W)
    {c c1 : GinContext} {s s1 : State W} (ran : m c s ≡ (c1, s1)) where
  abbrev step : GinContext × State W → GinContext × State W
  step r = unless_aborted r.0.response r (guarded ms handler r.0 r.1)

  pub guarded_next : c1.response ≡ none → guarded (m ∷ ms) handler c s ≡ guarded ms handler c1 s1
  unfolding guarded
  guarded_next e =
      ap step ran
      ∙ ap (λ (o : Option Response). unless_aborted o (c1, s1) (guarded ms handler c1 s1)) e

  pub guarded_abort :
      (r : Response) → c1.response ≡ some r → guarded (m ∷ ms) handler c s ≡ (c1, s1)
  unfolding guarded
  guarded_abort r e =
      ap step ran
      ∙ ap (λ (o : Option Response). unless_aborted o (c1, s1) (guarded ms handler c1 s1)) e

module _ {W : Type 0} (role : Text) (id : Uuid) (claims : Claims) (c : GinContext)
    (s : State W) where
  require_role-permits :
      text_eq role claims.role ≡ true
      → require_role (role ∷ []) (with_claims id claims c) s ≡ (with_claims id claims c, s)
  unfolding require_role
  require_role-permits e = rw (e, require_role) refl

  require_role-denies :
      text_eq role claims.role ≡ false
      → require_role (role ∷ []) (with_claims id claims c) s
        ≡ (respond 403 (error_body (codes "insufficient permissions")) (with_claims id claims c), s)
  unfolding require_role
  require_role-denies e = rw (e, require_role) refl

-- A refusal: a response with the status 401 or 403.
abbrev pub IsRefusal : GinContext → Type 0
IsRefusal c = (r : Response) × (c.response ≡ some r) × ((r.status ≡ 401) ⊎ (r.status ≡ 403))

module _ {W : Type 0} (jwt : JwtPackage W) (tokens : TokenManager) (uuid : UuidPackage) where
  -- The request carries "Bearer", a space and a token that parses to these claims, and the claims
  -- name this user.
  pub record Admits (c : GinContext) (s : State W) (id : Uuid) (claims : Claims) : Type 0 where
    pub scheme : Text
    pub token : Text
    pub present : c.authorization ≢ []
    pub parts : split_space c.authorization ≡ some (scheme, token)
    pub bearer : is_bearer scheme ≡ true
    pub parsed : parse jwt tokens token s.world ≡ ok claims
    pub subject : uuid.parse claims.user_id ≡ ok id

  abbrev pub Judged : GinContext → State W → GinContext × State W → Type 0
  Judged c s r =
      ((r.1 ≡ s) × IsRefusal r.0)
      ⊎ ((id : Uuid) × (claims : Claims) × Admits c s id claims
          × (r ≡ (with_claims id claims c, s)))

  pub jwt_auth-Judged : (c : GinContext) (s : State W) → Judged c s (jwt_auth jwt tokens uuid c s)
  unfolding jwt_auth
  jwt_auth-Judged c s = elim (Bool-cases (text_eq c.authorization [])) [
    | inl empty ↦ rw (empty, jwt_auth) (inl (refl, (_, refl, inl refl)))
    | inr given ↦ elim (Option-cases (split_space c.authorization)) [
      | inl bad ↦ rw (given, jwt_auth, bad) (inl (refl, (_, refl, inl refl)))
      | inr ((scheme, token), parts) ↦ elim (Bool-cases (is_bearer scheme)) [
        | inr bad ↦ rw (given, jwt_auth, parts, bad) (inl (refl, (_, refl, inl refl)))
        | inl bearer ↦ elim (Result-cases (parse jwt tokens token s.world)) [
          | inr (e, bad) ↦
              rw (given, jwt_auth, parts, bearer, bad) (inl (refl, (_, refl, inl refl)))
          | inl (claims, parsed) ↦ elim (Result-cases (uuid.parse claims.user_id)) [
            | inr (e, bad) ↦
                rw (given, jwt_auth, parts, bearer, parsed, bad) (inl (refl, (_, refl, inl refl)))
            | inl (id, subject) ↦
                rw (given, jwt_auth, parts, bearer, parsed, subject)
                  (inr (
                    id,
                    claims,
                    record {
                      scheme = scheme;
                      token = token;
                      present = λ e. not_empty c.authorization given e;
                      parts = parts;
                      bearer = bearer;
                      parsed = parsed;
                      subject = subject;
                    },
                    refl,
                  ))
          ]
        ]
      ]
    ]
  ]

  jwt_auth-Admits :
      (c : GinContext) (s : State W) (id : Uuid) (claims : Claims)
      → Admits c s id claims
      → jwt_auth jwt tokens uuid c s ≡ (with_claims id claims c, s)
  unfolding jwt_auth
  jwt_auth-Admits c s id claims a = elim (Bool-cases (text_eq c.authorization [])) [
    | inl empty ↦ absurd (a.present ((text_eq_iff c.authorization []).0 empty))
    | inr given ↦ rw (given, jwt_auth, a.parts, a.bearer, a.parsed, a.subject) refl
  ]

  module _ (role : Text) (handler : HandlerFunc W) (c : GinContext) (s : State W)
      (open_ctx : c.response ≡ none) where
    -- The chain of a group that wants a role.
    abbrev pub role_chain : GinContext × State W
    role_chain = guarded (jwt_auth jwt tokens uuid ∷ require_role (role ∷ []) ∷ []) handler c s

    role_chain_permitted :
        (id : Uuid) (claims : Claims)
        → jwt_auth jwt tokens uuid c s ≡ (with_claims id claims c, s)
        → text_eq role claims.role ≡ true
        → role_chain ≡ handler (with_claims id claims c) s
    unfolding guarded
    role_chain_permitted id claims e permitted =
        guarded_next (jwt_auth jwt tokens uuid) (require_role (role ∷ []) ∷ []) handler e open_ctx
        ∙ guarded_next (require_role (role ∷ [])) [] handler
            (require_role-permits role id claims c s permitted) open_ctx

    -- On a route that wants a role, either the request is refused with 401 or 403 and nothing
    -- else happens, or its token parses to claims with that role that name a user, and the handler
    -- runs with that user and role in its context.
    pub role_chain-guards :
        ((role_chain.1 ≡ s) × IsRefusal role_chain.0)
        ⊎ ((id : Uuid) × (claims : Claims) × Admits c s id claims
            × (claims.role ≡ role)
            × (role_chain ≡ handler (with_claims id claims c) s))
    role_chain-guards = elim (jwt_auth-Judged c s) [
      | inl (same, (r, refused, code)) ↦
          rw
            (guarded_abort (jwt_auth jwt tokens uuid) (require_role (role ∷ []) ∷ []) handler
              {c = c} {s = s} refl r refused)
            (inl (same, (r, refused, code)))
      | inr (id, claims, admitted, e) ↦ elim (Bool-cases (text_eq role claims.role)) [
        | inl permitted ↦ inr (
          id,
          claims,
          admitted,
          sym ((text_eq_iff role claims.role).0 permitted),
          role_chain_permitted id claims e permitted,
        )
        | inr denied ↦
            rw
              (
                guarded_next (jwt_auth jwt tokens uuid) (require_role (role ∷ []) ∷ []) handler e
                    open_ctx,
                guarded_abort (require_role (role ∷ [])) [] handler
                    (require_role-denies role id claims c s denied) _ refl,
              )
              (inl (refl, (_, refl, inr refl)))
      ]
    ]

    -- Nobody else is kept out: with such a token the handler runs.
    pub role_chain-Admits :
        (id : Uuid) (claims : Claims)
        → Admits c s id claims
        → claims.role ≡ role
        → role_chain ≡ handler (with_claims id claims c) s
    role_chain-Admits id claims a same =
        role_chain_permitted id claims (jwt_auth-Admits c s id claims a)
          ((text_eq_iff role claims.role).1 (sym same))
