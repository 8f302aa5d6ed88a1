-- ===== src/Service/Sessions.antt =====
-- Refresh tokens in Redis: what issueTokens, Refresh and Logout (internal/service/auth.go) leave there.
use pulse_notify.Prelude.{
  ℕ, ◌≡◌, ◌≢◌, ap, ◌∙◌, inl, inr, Option, none, some, [], ◌∷◌, Text, arith, Option-cases,
}
use pulse_notify.Errors.{user_not_found, invalid_refresh, ok, Result-cases}
use pulse_notify.Model.{Uuid, Duration, User, user_to_response}
use pulse_notify.External.{Redis}
use pulse_notify.State.{State, on_error}
use pulse_notify.State.Inversion.{>>=-eq-ok, on_error-eq-ok}
use pulse_notify.Repository.Users
use pulse_notify.Cache.{get, set, delete}
use pulse_notify.Service.Accounts.{
  AuthService, AuthResult, refresh_key, replace_error, issue_tokens, rotate, refresh,
}

-- The documented effect of GET, SET and DEL on the values of a Redis in which no key expires
-- meanwhile, and that the other services do not touch it. Nothing is said of a SET or DEL that
-- reports an error, but that it concerns its own key.
pub record KeyValue {W : Type 0} (svc : AuthService W) (c : Redis W) : Type 0 where
  pub view : W → Text → Option Text
  pub get_value : (k v : Text) (w : W) → (c.get k w).0 ≡ ok v → view w k ≡ some v
  pub set_value :
      (k v : Text) (d : Duration) (w : W)
      → (c.set k v d w).0 ≡ none
      → view (c.set k v d w).1 k ≡ some v
  pub set_other :
      (k v j : Text) (d : Duration) (w : W) → j ≢ k → view (c.set k v d w).1 j ≡ view w j
  pub del_value :
      (k : Text) (w : W) → (c.del (k ∷ []) w).0 ≡ none → view (c.del (k ∷ []) w).1 k ≡ none
  pub del_other : (k j : Text) (w : W) → j ≢ k → view (c.del (k ∷ []) w).1 j ≡ view w j
  pub clock_view : (w : W) (j : Text) → view (svc.clock w).1 j ≡ view w j
  pub read_view : (n : ℕ) (w : W) (j : Text) → view (svc.random.read n w).1 j ≡ view w j
  pub statement_view : (w : W) (j : Text) → view (svc.users.statement w).1 j ≡ view w j

module _ {W : Type 0} (svc : AuthService W) (c : Redis W) (laws : KeyValue svc c) where
  module _ (user : User) (r : AuthResult) (s s' : State W) (cached : svc.cache ≡ some c)
      (issued : issue_tokens svc user s ≡ (ok r, s')) where
    abbrev w2 : W
    w2 = (svc.clock (svc.clock s.world).1).1

    -- If issueTokens succeeds with a cache, Redis holds the user's id under the new refresh token's
    -- key, and the answer shows the user.
    pub issue_tokens-stores :
        (laws.view s'.world (refresh_key r.refresh_token) ≡ some (svc.uuid.to_text user.id))
        × (r.user ≡ user_to_response svc.uuid.to_text user)
    unfolding issue_tokens set
    issue_tokens-stores = (
      ground (
        arith,
        laws.set_value (refresh_key r.refresh_token) (svc.uuid.to_text user.id) svc.refresh_ttl
            (svc.random.read 32 w2).1,
      ),
      ground arith,
    )

    pub issue_tokens-others :
        (j : Text) → j ≢ refresh_key r.refresh_token → laws.view s'.world j ≡ laws.view s.world j
    unfolding issue_tokens set
    issue_tokens-others j other = ground (
      arith,
      laws.set_other (refresh_key r.refresh_token) (svc.uuid.to_text user.id) j svc.refresh_ttl
          (svc.random.read 32 w2).1 other,
      laws.clock_view (svc.clock s.world).1 j,
      laws.clock_view s.world j,
      laws.read_view 32 w2 j,
    )

  pub find_by_id-view :
      (id : Uuid) (s : State W) (j : Text)
      → laws.view (Users.find_by_id svc.users id s).1.world j ≡ laws.view s.world j
  unfolding Users.find_by_id
  find_by_id-view id s j = laws.statement_view s.world j

  -- The steps of a successful Refresh.
  pub record Refreshed (token : Text) (s : State W) (r : AuthResult) (s' : State W) : Type 0 where
    pub stored : Text
    pub id : Uuid
    pub user : User
    pub middle : State W
    pub looked_up : (get c (refresh_key token) s).0 ≡ ok (some stored)
    pub parsed : svc.uuid.parse stored ≡ ok id
    pub found :
        Users.find_by_id svc.users id
          (delete c (refresh_key token ∷ []) (get c (refresh_key token) s).1).1
        ≡ (ok user, middle)
    pub issued : issue_tokens svc user middle ≡ (ok r, s')

  pub refresh-Refreshed :
      (token : Text) (s : State W) (r : AuthResult) (s' : State W)
      → svc.cache ≡ some c
      → refresh svc token s ≡ (ok r, s')
      → Refreshed token s r s'
  unfolding refresh rotate
  refresh-Refreshed token s r s' cached h = elim (Result-cases (get c (refresh_key token) s).0) [
    | inr (e, bad) ↦ absurd (ground arith)
    | inl (o, got) ↦ elim (Option-cases o) [
      | inl missing ↦ absurd (ground arith)
      | inr (stored, there) ↦ elim (Result-cases (svc.uuid.parse stored)) [
        | inr (e, bad) ↦ absurd (ground arith)
        | inl (id, parsed) ↦
            let rotated : rotate svc c (refresh_key token) id (get c (refresh_key token) s).1
                ≡ (ok r, s') =
              ground arith in
            let (user, middle, found, issued) =
              >>=-eq-ok
                (on_error (replace_error user_not_found invalid_refresh)
                  (Users.find_by_id svc.users id))
                (issue_tokens svc)
                (delete c (refresh_key token ∷ []) (get c (refresh_key token) s).1).1 rotated in
            record {
              stored = stored;
              id = id;
              user = user;
              middle = middle;
              looked_up = got ∙ ap ok there;
              parsed = parsed;
              found =
                  on_error-eq-ok (replace_error user_not_found invalid_refresh)
                    (Users.find_by_id svc.users id) _ {a = user} {s' = middle} found;
              issued = issued;
            }
      ]
    ]
  ]
