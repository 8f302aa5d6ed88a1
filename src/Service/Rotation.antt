-- ===== src/Service/Rotation.antt =====
-- Refresh-token rotation and revocation (internal/service/auth.go).
use pulse_notify.Prelude.{
  ◌==◌, ◌≡◌, ◌≢◌, sym, ap, ◌∙◌, inl, inr, Bool, true, Option, none, some, List, [], ◌∷◌, Text,
  arith, find?, Bool-cases,
}
use pulse_notify.Errors.{Error, Result, ok}
use pulse_notify.Model.{Uuid, User, UserResponse, user_to_response}
use pulse_notify.External.{Postgres, Redis}
use pulse_notify.State.{State}
use pulse_notify.Repository.Users
use pulse_notify.Cache.{get, delete}
use pulse_notify.Service.Accounts.{AuthService, AuthResult, refresh_key, refresh, logout}
use pulse_notify.Service.Sessions.{
  KeyValue, issue_tokens-stores, issue_tokens-others, find_by_id-view, Refreshed, refresh-Refreshed,
}

find?-sound {ℓ} :
    {A : Type ℓ} (p : A → Bool) (xs : List A) (a : A) → find? p xs ≡ some a → p a ≡ true
find?-sound p [] a h = cc
find?-sound p (x ∷ xs) a h = elim (Bool-cases (p x)) [
  | inl yes_x ↦ let same : x ≡ a = ground arith in rw (← same) yes_x
  | inr no_x ↦ find?-sound p xs a (ground arith)
]

pub find_by_id-id :
    {W : Type 0} (pg : Postgres W) (id : Uuid) (user : User) (s s' : State W)
    → Users.find_by_id pg id s ≡ (ok user, s')
    → user.id ≡ id
unfolding Users.find_by_id
find_by_id-id pg id user s s' h =
    ground (arith, find?-sound (λ (u : User). u.id == id) s.db.users user)

pub refresh_key-injective : (a b : Text) → refresh_key a ≡ refresh_key b → a ≡ b
refresh_key-injective a b e = cc

module _ {W : Type 0} (svc : AuthService W) (c : Redis W) (laws : KeyValue svc c)
    (cached : svc.cache ≡ some c) where
  -- The world just after Refresh has asked for the deletion of the token's key, and its result.
  abbrev pub asked : Text → State W → Option Error × W
  asked token s = c.del (refresh_key token ∷ []) (c.get (refresh_key token) s.world).1

  pub get-some :
      (k v : Text) (s : State W) → (get c k s).0 ≡ ok (some v) → laws.view s.world k ≡ some v
  unfolding get
  get-some k v s h = ground (arith, laws.get_value k v s.world)

  -- A key that is not there is not found.
  get-absent : (k v : Text) (s : State W) → laws.view s.world k ≡ none → (get c k s).0 ≢ ok (some v)
  get-absent k v s absent h = let e : none ≡ some v = sym absent ∙ get-some k v s h in cc

  pub logout-gone :
      (token : Text) (s s' : State W)
      → logout svc token s ≡ (ok tt, s')
      → laws.view s'.world (refresh_key token) ≡ none
  unfolding logout delete
  logout-gone token s s' out = ground (arith, laws.del_value (refresh_key token) s.world)

  module _ (token : Text) (r : AuthResult) (s s' : State W)
      (refreshed : refresh svc token s ≡ (ok r, s')) where
    pub middle-view :
        (x : Refreshed svc c laws token s r s') (j : Text)
        → laws.view x.middle.world j ≡ laws.view (asked token s).1 j
    unfolding delete get
    middle-view x j =
        ap (λ (p : Result User × State W). laws.view p.1.world j) (sym x.found)
        ∙ find_by_id-view svc c laws x.id
            (delete c (refresh_key token ∷ []) (get c (refresh_key token) s).1).1 j

    old_key-view :
        r.refresh_token ≢ token
        → laws.view s'.world (refresh_key token) ≡ laws.view (asked token s).1 (refresh_key token)
    old_key-view fresh =
        let x = refresh-Refreshed svc c laws token s r s' cached refreshed in
        issue_tokens-others svc c laws x.user r x.middle s' cached x.issued (refresh_key token)
          (λ e. fresh (sym (refresh_key-injective token r.refresh_token e)))
        ∙ middle-view x (refresh_key token)

    -- A successful Refresh was asked for with a stored token: it held the id of a user, and the new
    -- token's key now holds the id of the same user.
    pub refresh-same_user :
        (stored : Text) × (id : Uuid) × (laws.view s.world (refresh_key token) ≡ some stored)
        × (svc.uuid.parse stored ≡ ok id)
        × (laws.view s'.world (refresh_key r.refresh_token) ≡ some (svc.uuid.to_text id))
        × (r.user.id ≡ svc.uuid.to_text id)
    unfolding user_to_response
    refresh-same_user =
        let x = refresh-Refreshed svc c laws token s r s' cached refreshed in
        let same = find_by_id-id svc.users x.id x.user _ x.middle x.found in
        let (kept, shown) = issue_tokens-stores svc c laws x.user r x.middle s' cached x.issued in
        (
          x.stored,
          x.id,
          get-some (refresh_key token) x.stored s x.looked_up,
          x.parsed,
          kept ∙ ap (λ (u : Uuid). some (svc.uuid.to_text u)) same,
          ap (λ (u : UserResponse). u.id) shown ∙ ap svc.uuid.to_text same,
        )

    -- A refresh token is good for one Refresh, if Redis reports no error for the deletion and the
    -- new token is another text: with the old one, Refresh fails afterwards.
    pub refresh_twice :
        (asked token s).0 ≡ none
        → r.refresh_token ≢ token
        → (again : AuthResult) → (refresh svc token s').0 ≢ ok again
    refresh_twice deleted fresh again h =
        let gone : laws.view s'.world (refresh_key token) ≡ none =
          old_key-view fresh
          ∙ laws.del_value (refresh_key token) (c.get (refresh_key token) s.world).1 deleted in
        let x =
          refresh-Refreshed svc c laws token s' again (refresh svc token s').1 cached
            (ap (λ (o : Result AuthResult). (o, (refresh svc token s').1)) h) in
        get-absent (refresh_key token) x.stored s' gone x.looked_up

    -- Refresh does not look at the deletion's error: if the deletion leaves the old token's value,
    -- it is there after a successful Refresh with another new token.
    pub refresh-keeps_undeleted :
        (stored : Text)
        → laws.view (asked token s).1 (refresh_key token) ≡ some stored
        → r.refresh_token ≢ token
        → laws.view s'.world (refresh_key token) ≡ some stored
    refresh-keeps_undeleted stored left fresh = old_key-view fresh ∙ left

  -- After a Logout that reports success, Refresh fails with the token.
  pub refresh-logout :
      (token : Text) (s s' : State W)
      → logout svc token s ≡ (ok tt, s')
      → (again : AuthResult) → (refresh svc token s').0 ≢ ok again
  refresh-logout token s s' out again h =
      let x =
        refresh-Refreshed svc c laws token s' again (refresh svc token s').1 cached
          (ap (λ (o : Result AuthResult). (o, (refresh svc token s').1)) h) in
      get-absent (refresh_key token) x.stored s' (logout-gone token s s' out) x.looked_up
