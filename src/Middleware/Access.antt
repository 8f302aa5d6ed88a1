-- ===== src/Middleware/Access.antt =====
-- internal/middleware/jwt.go and rbac.go, and the chains of internal/router that they guard.
use pulse_notify.Prelude.{
  ℕ, ◌+◌, ◌≡◌, ◌≢◌, Bool, true, false, ◌&&◌, Option, none, some, List, [], ◌∷◌, map, arith, any,
  if◌then◌else◌, leb, ◌==◌, Text, codes, text_eq, text_eq_iff,
}
use pulse_notify.Errors.{ok, err}
use pulse_notify.Model.{Uuid}
use pulse_notify.External.{UuidPackage}
use pulse_notify.Auth.{JwtPackage, TokenManager, Claims, parse}
use pulse_notify.Http.{GinContext, HandlerFunc, Response, error_body, respond}

abbrev cons_first : ℕ → Option (Text × Text) → Option (Text × Text)
cons_first c none = none
cons_first c (some (a, b)) = some (c ∷ a, b)

-- strings.SplitN(header, " ", 2), none where it has one part only: what is before and after the
-- first space.
unfoldable pub split_space : Text → Option (Text × Text)
split_space [] = none
split_space (c ∷ s) = if c == 32 then some ([], s) else cons_first c (split_space s)

not_empty : (s : Text) → text_eq s [] ≡ false → s ≢ []
not_empty s h e = ground (arith, text_eq_iff s [])

-- strings.EqualFold(s, "Bearer"): no letter of it has a fold outside ASCII.
abbrev ascii_lower : ℕ → ℕ
ascii_lower c = if leb b'A' c && leb c b'Z' then c + 32 else c

unfoldable pub is_bearer : Text → Bool
is_bearer s = text_eq (map ascii_lower s) (codes "bearer")

abbrev pub unauthorized : Text → GinContext → GinContext
unauthorized text = respond 401 (error_body text)

-- The keys that JWT sets before it calls Next.
abbrev pub with_claims : Uuid → Claims → GinContext → GinContext
with_claims id claims c = record c {
  user_id = some id;
  email = some claims.email;
  role = some claims.role;
}

module _ {W : Type 0} (jwt : JwtPackage W) (tokens : TokenManager) (uuid : UuidPackage) where
  -- JWT(tokens)
  unfoldable pub jwt_auth : HandlerFunc W
  jwt_auth c s = elim (text_eq c.authorization []) [
    | true ↦ (unauthorized (codes "missing authorization header") c, s)
    | false ↦ elim (split_space c.authorization) [
      | none ↦ (unauthorized (codes "invalid authorization header") c, s)
      | some parts ↦ elim (is_bearer parts.0) [
        | false ↦ (unauthorized (codes "invalid authorization header") c, s)
        | true ↦ elim (parse jwt tokens parts.1 s.world) [
          | err e ↦ (unauthorized (codes "invalid or expired token") c, s)
          | ok claims ↦ elim (uuid.parse claims.user_id) [
            | err e ↦ (unauthorized (codes "invalid token subject") c, s)
            | ok id ↦ (with_claims id claims c, s)
          ]
        ]
      ]
    ]
  ]

-- UserIDFromContext
abbrev pub user_id_from_context : GinContext → Option Uuid
user_id_from_context c = c.user_id

-- RoleFromContext
abbrev pub role_from_context : GinContext → Option Text
role_from_context c = c.role

-- RequireRole(roles...)
unfoldable pub require_role : {W : Type 0} → List Text → HandlerFunc W
require_role roles c s = elim (role_from_context c) [
  | none ↦ (unauthorized (codes "unauthorized") c, s)
  | some role ↦
      if any (λ r. text_eq r role) roles
      then (c, s)
      else (respond 403 (error_body (codes "insufficient permissions")) c, s)
]

abbrev pub unless_aborted : {A : Type 0} → Option Response → A → A → A
unless_aborted (some r) stop next = stop
unless_aborted none stop next = next

-- A handler behind middleware: each runs unless one before it has aborted.
unfoldable pub guarded : {W : Type 0} → List (HandlerFunc W) → HandlerFunc W → HandlerFunc W
guarded [] handler c s = handler c s
guarded (m ∷ ms) handler c s =
    let r = m c s in let next = guarded ms handler r.0 r.1 in unless_aborted r.0.response r next
