-- ===== src/Service/Race.antt =====
-- Two calls of Refresh (internal/service/auth.go) with one token at the same time: the lookup and
-- the deletion are two commands of Redis, and another request may come between them.
use pulse_notify.Prelude.{
  ℕ, ◌==◌, ◌≡◌, refl, sym, subst, Option, none, some, List, [], ◌∷◌, arith, find?, Text,
}
use pulse_notify.Errors.{sentinel, invalid_refresh, Result, ok, err}
use pulse_notify.Model.{Uuid, Duration, User, user_to_response}
use pulse_notify.External.{Redis, delivered}
use pulse_notify.State.{State, M}
use pulse_notify.Repository.Users
use pulse_notify.Auth.{Claims, hs256, add_duration, new_claims}
use pulse_notify.Cache.{get, set, delete}
use pulse_notify.Service.Accounts.{
  AuthService, AuthResult, refresh_key, issue_tokens, rotate, refresh_with,
}

module _ {W : Type 0} (svc : AuthService W) (c : Redis W) (key : Text) where
  abbrev parsed : Result Uuid → M W AuthResult
  parsed (err e) s = (err (sentinel invalid_refresh), s)
  parsed (ok user_id) s = rotate svc c key user_id s

  -- What Refresh does once it has the answer of its lookup.
  abbrev pub resume : Result (Option Text) → M W AuthResult
  resume (err e) s = (err e, s)
  resume (ok none) s = (err (sentinel invalid_refresh), s)
  resume (ok (some stored)) s = parsed (svc.uuid.parse stored) s

  -- Refresh is its lookup and what follows.
  resume-refresh_with :
      (s : State W) → refresh_with svc c key s ≡ resume (get c key s).0 (get c key s).1
  unfolding refresh_with
  resume-refresh_with s = ground arith

  -- Both calls look the token up before either goes on.
  pub race : State W → (Result AuthResult × Result AuthResult) × State W
  race s =
      let (first, s1) = get c key s in
      let (second, s2) = get c key s1 in
      let (a, s3) = resume first s2 in let (b, s4) = resume second s3 in ((a, b), s4)

-- Every service that a Refresh calls answers without an error.
pub record Available {W : Type 0} (svc : AuthService W) (c : Redis W) : Type 0 where
  pub cached : svc.cache ≡ some c
  pub answers : (w : W) → (svc.users.statement w).0.delivery ≡ delivered
  pub signs :
      (claims : Claims) (secret : Text)
      → (t : Text) × (svc.jwt.signed_string hs256 claims secret ≡ ok t)
  pub reads : (n : ℕ) (w : W) → (bytes : Text) × ((svc.random.read n w).0 ≡ ok bytes)
  pub sets : (k v : Text) (d : Duration) (w : W) → (c.set k v d w).0 ≡ none

abbrev pub user_of : Uuid → List User → Option User
user_of id = find? (λ (u : User). u.id == id)

module _ {W : Type 0} (svc : AuthService W) (c : Redis W) (up : Available svc c) where
  issue_tokens-ok :
      (user : User) (s : State W)
      → (r : AuthResult) × ((issue_tokens svc user s).0 ≡ ok r)
        × ((issue_tokens svc user s).1.db ≡ s.db)
  unfolding issue_tokens set
  issue_tokens-ok user s =
      let (t1, w1) = svc.clock s.world in
      let (t2, w2) = svc.clock w1 in
      let expires_at = add_duration t1 svc.tokens.ttl in
      let (token, signed) =
        up.signs (new_claims svc.jwt svc.tokens svc.uuid user.id user.email user.role expires_at t2)
          svc.tokens.secret in
      let (bytes, random) = up.reads 32 w2 in
      let text = svc.random.encode_to_string bytes in
      let kept =
        up.sets (refresh_key text) (svc.uuid.to_text user.id) svc.refresh_ttl
          (svc.random.read 32 w2).1 in
      let cached = up.cached in
      (
        record {
          access_token = token;
          refresh_token = text;
          expires_at = expires_at;
          user = user_to_response svc.uuid.to_text user;
        },
        ground arith,
        ground arith,
      )

  rotate-ok :
      (key : Text) (id : Uuid) (user : User) (s : State W)
      → user_of id s.db.users ≡ some user
      → (r : AuthResult) × ((rotate svc c key id s).0 ≡ ok r)
        × ((rotate svc c key id s).1.db ≡ s.db)
  unfolding rotate Users.find_by_id delete
  rotate-ok key id user s there =
      let w = (c.del (key ∷ []) s.world).1 in
      let answered = up.answers w in
      let middle = (Users.find_by_id svc.users id (delete c (key ∷ []) s).1).1 in
      let (r, issued, same) = issue_tokens-ok user middle in (r, ground arith, ground arith)

  -- Two calls of Refresh with one token, both of which look the token up before either goes on, and
  -- find it with the id of a user: if the services that they call answer without an error, both
  -- calls succeed, whatever becomes of the two deletions of the token.
  pub race_both :
      (key stored : Text) (id : Uuid) (user : User) (s : State W)
      → (get c key s).0 ≡ ok (some stored)
      → (get c key (get c key s).1).0 ≡ ok (some stored)
      → svc.uuid.parse stored ≡ ok id
      → user_of id s.db.users ≡ some user
      → (a : AuthResult) × (b : AuthResult) × ((race svc c key s).0 ≡ (ok a, ok b))
  unfolding race get
  race_both key stored id user s first second same there =
      let s2 = (get c key (get c key s).1).1 in
      let (a, done, kept) = rotate-ok key id user s2 there in
      let s3 = (rotate svc c key id s2).1 in
      let (b, again, _) =
        rotate-ok key id user s3 (subst (λ db. user_of id db.users ≡ some user) (sym kept) there) in
      (a, b, rw (first, race, second, same, done, again) refl)
