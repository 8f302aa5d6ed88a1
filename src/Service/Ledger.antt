-- ===== src/Service/Ledger.antt =====
-- The refresh tokens as a ledger: an abstract map from live tokens to users that successful calls of
-- issueTokens, Refresh and Logout (internal/service/auth.go) change.
use pulse_notify.Prelude.{
  ◌≡◌, ◌≢◌, refl, sym, ap, ◌∙◌, subst, inl, inr, false, Bool-cases, if◌then◌else◌, Option, none,
  some, List, [], ◌∷◌, All, Text, text_eq, text_eq_iff, arith,
}
use pulse_notify.Errors.{Error, ok}
use pulse_notify.Model.{Uuid, User, UserResponse, user_to_response}
use pulse_notify.External.{Redis}
use pulse_notify.State.{State}
use pulse_notify.Cache.{delete}
use pulse_notify.Service.Accounts.{
  AuthService, AuthResult, refresh_key, issue_tokens, refresh, logout,
}
use pulse_notify.Service.Sessions.{
  KeyValue, Refreshed, refresh-Refreshed, issue_tokens-stores, issue_tokens-others,
}
use pulse_notify.Service.Rotation.{
  asked, middle-view, logout-gone, refresh_key-injective, find_by_id-id, get-some,
}

-- The live tokens, each with the text of its user's id.
abbrev pub Ledger : Type 0
Ledger = Text → Option Text

abbrev pub put_token : Text → Text → Ledger → Ledger
put_token token id m t = if text_eq t token then some id else m t

abbrev pub drop_token : Text → Ledger → Ledger
drop_token token m t = if text_eq t token then none else m t

-- What a call did for its caller.
pub data SessionEvent : Type 0 where
  -- a token for a user; a token in exchange for another, with what Redis replied to the deletion of
  -- the other; the end of a token
  issued : Text → Uuid → SessionEvent
  rotated : Text → Text → Uuid → Option Error → SessionEvent
  ended : Text → SessionEvent

-- Redis accepted the deletion of a Refresh.
abbrev pub IsDeleted : SessionEvent → Type 0
IsDeleted (rotated old token id reply) = reply ≡ none
IsDeleted _ = Unit

module _ {W : Type 0} (svc : AuthService W) where
  abbrev pub record_event : SessionEvent → Ledger → Ledger
  record_event (issued token id) m = put_token token (svc.uuid.to_text id) m
  record_event (rotated old token id reply) m =
      put_token token (svc.uuid.to_text id) (drop_token old m)
  record_event (ended token) m = drop_token token m

  -- Only a live token is exchanged, and for one of the same user.
  abbrev pub IsAllowed : SessionEvent → Ledger → Type 0
  IsAllowed (rotated old token id reply) m =
      (stored : Text) × (m old ≡ some stored) × (svc.uuid.parse stored ≡ ok id)
  IsAllowed _ m = Unit

  abbrev pub record_events : List SessionEvent → Ledger → Ledger
  record_events [] m = m
  record_events (e ∷ es) m = record_events es (record_event e m)

  abbrev pub AreAllowed : List SessionEvent → Ledger → Type 0
  AreAllowed [] m = Unit
  AreAllowed (e ∷ es) m = IsAllowed e m × AreAllowed es (record_event e m)

  -- A successful call. Refresh goes on whatever Redis replies to the deletion.
  pub data SessionStep (c : Redis W) : State W → SessionEvent → State W → Type 0 where
    issues :
        {s s' : State W} (user : User) (r : AuthResult)
        → issue_tokens svc user s ≡ (ok r, s')
        → SessionStep c s (issued r.refresh_token user.id) s'
    refreshes :
        {s s' : State W} (token : Text) (r : AuthResult) (id : Uuid)
        → refresh svc token s ≡ (ok r, s')
        → r.user.id ≡ svc.uuid.to_text id
        → SessionStep c s
            (rotated token r.refresh_token id
              (c.del (refresh_key token ∷ []) (c.get (refresh_key token) s.world).1).0)
            s'
    logs_out :
        {s s' : State W} (token : Text)
        → logout svc token s ≡ (ok tt, s')
        → SessionStep c s (ended token) s'

  pub data SessionRun (c : Redis W) : State W → List SessionEvent → State W → Type 0 where
    rests : {s : State W} → SessionRun c s [] s
    steps :
        {s s1 s' : State W} {e : SessionEvent} {es : List SessionEvent}
        → SessionStep c s e s1
        → SessionRun c s1 es s'
        → SessionRun c s (e ∷ es) s'

pointwise : {m k : Ledger} → ((t : Text) → m t ≡ k t) → m ≡ k
pointwise h = λ i t. h t i

module _ {W : Type 0} (svc : AuthService W) (c : Redis W) (laws : KeyValue svc c)
    (cached : svc.cache ≡ some c)
    (get_view : (k j : Text) (w : W) → laws.view (c.get k w).1 j ≡ laws.view w j) where
  -- The ledger that Redis holds.
  abbrev pub ledger : State W → Ledger
  ledger s token = laws.view s.world (refresh_key token)

  key-ne : (a b : Text) → text_eq a b ≡ false → refresh_key a ≢ refresh_key b
  key-ne a b differ e = ground (arith, refresh_key-injective a b e, text_eq_iff a b)

  issues-put :
      (user : User) (r : AuthResult) (s s' : State W)
      → issue_tokens svc user s ≡ (ok r, s')
      → ledger s' ≡ put_token r.refresh_token (svc.uuid.to_text user.id) (ledger s)
  issues-put user r s s' done = pointwise λ t. elim (Bool-cases (text_eq t r.refresh_token)) [
    | inl here ↦ rw here (
        ap (λ x. laws.view s'.world (refresh_key x)) ((text_eq_iff t r.refresh_token).0 here)
        ∙ (issue_tokens-stores svc c laws user r s s' cached done).0)
    | inr there ↦ rw there (
        issue_tokens-others svc c laws user r s s' cached done (refresh_key t)
          (key-ne t r.refresh_token there))
  ]

  to_text-injective : (a b : Uuid) → svc.uuid.to_text a ≡ svc.uuid.to_text b → a ≡ b
  to_text-injective a b h =
      cc (ap svc.uuid.parse h, svc.uuid.parse-to_text a, svc.uuid.parse-to_text b)

  -- The ledger after the deletion of Refresh.
  middle-drop :
      (token : Text) (r : AuthResult) (s s' : State W)
      → (done : refresh svc token s ≡ (ok r, s')) → (asked svc c laws cached token s).0 ≡ none
      → (x : Refreshed svc c laws token s r s') → ledger x.middle ≡ drop_token token (ledger s)
  middle-drop token r s s' done deleted x =
      let w = (c.get (refresh_key token) s.world).1 in
      pointwise λ t. elim (Bool-cases (text_eq t token)) [
        | inl here ↦ rw here (
            middle-view svc c laws cached token r s s' done x (refresh_key t)
            ∙ ap (λ y. laws.view (asked svc c laws cached token s).1 (refresh_key y))
                ((text_eq_iff t token).0 here)
            ∙ laws.del_value (refresh_key token) w deleted)
        | inr there ↦ rw there (
            middle-view svc c laws cached token r s s' done x (refresh_key t)
            ∙ laws.del_other (refresh_key token) (refresh_key t) w (key-ne t token there)
            ∙ get_view (refresh_key token) (refresh_key t) s.world)
      ]

  refreshes-rotate :
      (token : Text) (r : AuthResult) (id : Uuid) (s s' : State W)
      → refresh svc token s ≡ (ok r, s')
      → (asked svc c laws cached token s).0 ≡ none
      → r.user.id ≡ svc.uuid.to_text id
      → ((stored : Text) × (ledger s token ≡ some stored) × (svc.uuid.parse stored ≡ ok id))
        × (ledger s'
            ≡ put_token r.refresh_token (svc.uuid.to_text id) (drop_token token (ledger s)))
  unfolding user_to_response
  refreshes-rotate token r id s s' done deleted shown =
      let x = refresh-Refreshed svc c laws token s r s' cached done in
      let same_row : x.user.id ≡ x.id = find_by_id-id svc.users x.id x.user _ x.middle x.found in
      let shows_row : r.user.id ≡ svc.uuid.to_text x.user.id =
        ap (λ (u : UserResponse). u.id)
          (issue_tokens-stores svc c laws x.user r x.middle s' cached x.issued).1 in
      let row_id : x.user.id ≡ id = to_text-injective x.user.id id (sym shows_row ∙ shown) in
      let middle : ledger x.middle ≡ drop_token token (ledger s) =
        middle-drop token r s s' done deleted x in
      (
        (
          x.stored,
          get-some svc c laws cached (refresh_key token) x.stored s x.looked_up,
          x.parsed ∙ ap ok (sym same_row ∙ row_id),
        ),
        issues-put x.user r x.middle s' x.issued
            ∙ (λ i. put_token r.refresh_token (ap svc.uuid.to_text row_id i) (middle i)),
      )

  logout-others :
      (token j : Text) (s s' : State W)
      → logout svc token s ≡ (ok tt, s')
      → j ≢ refresh_key token
      → laws.view s'.world j ≡ laws.view s.world j
  unfolding logout delete
  logout-others token j s s' done other =
      ground (arith, laws.del_other (refresh_key token) j s.world other)

  logs_out-drop :
      (token : Text) (s s' : State W)
      → logout svc token s ≡ (ok tt, s')
      → ledger s' ≡ drop_token token (ledger s)
  logs_out-drop token s s' done = pointwise λ t. elim (Bool-cases (text_eq t token)) [
    | inl here ↦ rw here (
        ap (λ x. laws.view s'.world (refresh_key x)) ((text_eq_iff t token).0 here)
        ∙ logout-gone svc c laws cached token s s' done)
    | inr there ↦ rw there (logout-others token (refresh_key t) s s' done (key-ne t token there))
  ]

  step-records :
      {s s' : State W} (e : SessionEvent)
      → IsDeleted e
      → SessionStep svc c s e s'
      → IsAllowed svc e (ledger s) × (ledger s' ≡ record_event svc e (ledger s))
  step-records {s} {s'} _ deleted (issues user r done) = (tt, issues-put user r s s' done)
  step-records {s} {s'} _ deleted (refreshes token r id done shown) =
      refreshes-rotate token r id s s' done deleted shown
  step-records {s} {s'} _ deleted (logs_out token done) = (tt, logs_out-drop token s s' done)

  -- A run of successful calls of issueTokens, Refresh and Logout, in which Redis accepted the
  -- deletion of each Refresh, refines the ledger: a Refresh exchanges a live token for one of the
  -- same user, the old one ends with it, a Logout ends its token, and no other token changes.
  pub run-records :
      {s s' : State W} (es : List SessionEvent)
      → All IsDeleted es
      → SessionRun svc c s es s'
      → AreAllowed svc es (ledger s) × (ledger s' ≡ record_events svc es (ledger s))
  run-records _ deleted rests = (tt, refl)
  run-records (e ∷ es) deleted (steps step more) =
      let (allowed, now) = step-records e deleted.0 step in
      let (rest, end) = run-records es deleted.1 more in
      ((allowed, subst (AreAllowed svc es) now rest), end ∙ ap (record_events svc es) now)
