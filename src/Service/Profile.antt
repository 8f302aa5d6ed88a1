-- ===== src/Service/Profile.antt =====
-- The cached profiles of GetProfile (internal/service/auth.go).
use pulse_notify.Prelude.{
  ◌≡◌, refl, sym, ap, ◌∙◌, subst, ◌⊎◌, inl, inr, Bool-cases, ◌==◌, Option, none, some, Text,
  append-cancel, find?, arith, codes,
}
use pulse_notify.Errors.{Result, ok, Result-cases}
use pulse_notify.Model.{Uuid, Duration, User, UserResponse, user_to_response}
use pulse_notify.External.{Redis}
use pulse_notify.State.{State, Db, M, ◌>>=◌}
use pulse_notify.State.Inversion.{>>=-eq-ok}
use pulse_notify.Repository.Users
use pulse_notify.Cache.{get_json, set_json, is_redis_nil}
use pulse_notify.Service.Accounts.{
  AuthService, profile_key, profile_ttl, cached_profile, store_profile, load_profile, or_load,
  get_profile,
}

-- The documented effect of GET and SET on the values of a Redis in which no key expires meanwhile,
-- a failed SET included; that SQL does not touch them; and that the JSON of a profile is read back.
pub record ProfileLaws {W : Type 0} (svc : AuthService W) (c : Redis W) : Type 0 where
  pub view : W → Text → Option Text
  pub get_value : (k v : Text) (w : W) → (c.get k w).0 ≡ ok v → view w k ≡ some v
  pub get_view : (k j : Text) (w : W) → view (c.get k w).1 j ≡ view w j
  pub set_view :
      (k v j : Text) (d : Duration) (w : W)
      → (view (c.set k v d w).1 j ≡ view w j) ⊎ ((j ≡ k) × (view (c.set k v d w).1 j ≡ some v))
  pub statement_view : (w : W) (j : Text) → view (svc.users.statement w).1 j ≡ view w j
  pub read_back :
      (r : UserResponse) (t : Text)
      → svc.profile_codec.marshal r ≡ ok t
      → svc.profile_codec.unmarshal t ≡ ok r

module _ {W : Type 0} (svc : AuthService W) (c : Redis W) (laws : ProfileLaws svc c) where
  -- The answer is what the user's row shows.
  abbrev pub IsCurrent : Uuid → UserResponse → Db → Type 0
  IsCurrent id r db =
      (user : User) × (find? (λ (u : User). u.id == id) db.users ≡ some user)
      × (r ≡ user_to_response svc.uuid.to_text user)

  -- Each cached profile is what its user's row shows.
  abbrev pub IsCoherent : State W → Type 0
  IsCoherent s =
      (id : Uuid) (v : Text) (r : UserResponse)
      → laws.view s.world (profile_key svc.uuid id) ≡ some v
      → svc.profile_codec.unmarshal v ≡ ok r
      → IsCurrent id r s.db

  profile_key-injective : (a b : Uuid) → profile_key svc.uuid a ≡ profile_key svc.uuid b → a ≡ b
  profile_key-injective a b h =
      let same : svc.uuid.to_text a ≡ svc.uuid.to_text b =
        append-cancel (codes "user:profile:") _ _ h in
      cc (ap svc.uuid.parse same, svc.uuid.parse-to_text a, svc.uuid.parse-to_text b)

  set-IsCoherent :
      (id : Uuid) (user : User) (text : Text) (s : State W)
      → find? (λ (u : User). u.id == id) s.db.users ≡ some user
      → svc.profile_codec.unmarshal text ≡ ok (user_to_response svc.uuid.to_text user)
      → IsCoherent s
      → IsCoherent
          (record s { world = (c.set (profile_key svc.uuid id) text profile_ttl s.world).1 })
  set-IsCoherent id user text s found decoded coherent id2 v r there read =
      elim (laws.set_view (profile_key svc.uuid id) text (profile_key svc.uuid id2) profile_ttl
        s.world) [
          | inl kept ↦ coherent id2 v r (sym kept ∙ there) read
          | inr (same_key, new_value) ↦
              let same : id2 ≡ id = profile_key-injective id2 id same_key in
              let same_text : text ≡ v = cc in (user, rw same found, cc)
        ]

  store_profile-IsCoherent :
      (id : Uuid) (user : User) (s : State W)
      → svc.cache ≡ some c
      → find? (λ (u : User). u.id == id) s.db.users ≡ some user
      → IsCoherent s
      → let s' =
          store_profile svc (profile_key svc.uuid id) (user_to_response svc.uuid.to_text user) s in
        IsCoherent s' × (s'.db ≡ s.db)
  unfolding set_json
  store_profile-IsCoherent id user s cached found coherent =
      let r = user_to_response svc.uuid.to_text user in
      elim (Result-cases (svc.profile_codec.marshal r)) [
        | inr (e, bad) ↦ rw (cached, store_profile, set_json, bad) (coherent, refl)
        | inl (text, good) ↦
            rw (cached, store_profile, set_json, good)
              (set-IsCoherent id user text s found (laws.read_back r text good) coherent, refl)
      ]

  find_by_id-row :
      (id : Uuid) (s s1 : State W) (user : User)
      → Users.find_by_id svc.users id s ≡ (ok user, s1)
      → (find? (λ (u : User). u.id == id) s.db.users ≡ some user)
        × (s1.db ≡ s.db)
        × ((j : Text) → laws.view s1.world j ≡ laws.view s.world j)
  unfolding Users.find_by_id
  find_by_id-row id s s1 user h = (
    ground arith,
    ground arith,
    λ j.
        ap (λ (q : Result User × State W). laws.view q.1.world j) (sym h)
        ∙ laws.statement_view s.world j,
  )

  load_profile-IsCoherent :
      (id : Uuid) (s s' : State W) (r : UserResponse)
      → svc.cache ≡ some c
      → IsCoherent s
      → load_profile svc (profile_key svc.uuid id) id s ≡ (ok r, s')
      → IsCurrent id r s'.db × IsCoherent s' × (s'.db ≡ s.db)
  unfolding load_profile
  load_profile-IsCoherent id s s' r cached coherent loaded =
      let shown = user_to_response svc.uuid.to_text in
      let (user, s1, found, rest) =
        >>=-eq-ok (Users.find_by_id svc.users id)
          (λ u t. (ok (shown u), store_profile svc (profile_key svc.uuid id) (shown u) t)) s
          loaded in
      let (row, same_db, same_view) = find_by_id-row id s s1 user found in
      let coherent1 : IsCoherent s1 = λ id2 v r2 there read.
        rw same_db (coherent id2 v r2 (sym (same_view (profile_key svc.uuid id2)) ∙ there) read) in
      let (coherent2, same_db2) =
        store_profile-IsCoherent id user s1 cached (rw same_db row) coherent1 in
      let end : store_profile svc (profile_key svc.uuid id) (shown user) s1 ≡ s' =
        ap (λ (q : Result UserResponse × State W). q.1) rest in
      let answer : r ≡ shown user = cc in
      let dbs : s'.db ≡ s.db = ap (λ (t : State W). t.db) (sym end) ∙ same_db2 ∙ same_db in
      ((user, rw dbs row, answer), subst IsCoherent end coherent2, dbs)

  -- The state after the GET of GetProfile.
  abbrev asked : Text → State W → State W
  asked key s = record s { world = (c.get key s.world).1 }

  cached_profile-cases :
      (key : Text) (s : State W)
      → svc.cache ≡ some c
      → (cached_profile svc key s ≡ (ok none, asked key s))
        ⊎ ((v : Text) × (found : UserResponse) × ((c.get key s.world).0 ≡ ok v)
            × (svc.profile_codec.unmarshal v ≡ ok found)
            × (cached_profile svc key s ≡ (ok (some found), asked key s)))
  unfolding get_json
  cached_profile-cases key s cached = elim (Result-cases (c.get key s.world).0) [
    | inr (e, bad) ↦ elim (Bool-cases (is_redis_nil e)) [
      | inl nil ↦ inl (rw (cached_profile, cached, get_json, bad, nil) refl)
      | inr other ↦ inl (rw (cached_profile, cached, get_json, bad, other) refl)
    ]
    | inl (v, there) ↦ elim (Result-cases (svc.profile_codec.unmarshal v)) [
      | inr (e, bad) ↦ inl (rw (cached_profile, cached, get_json, there, bad) refl)
      | inl (found, read) ↦
          inr (v, found, there, read, rw (cached_profile, cached, get_json, there, read) refl)
    ]
  ]

  after_lookup :
      (key : Text) (s : State W) (load : M W UserResponse) (hit : Option UserResponse)
      {q : Result UserResponse × State W}
      → cached_profile svc key s ≡ (ok hit, asked key s)
      → (cached_profile svc key >>= λ (h : Option UserResponse). or_load svc h load) s ≡ q
      → or_load svc hit load (asked key s) ≡ q
  after_lookup key s load hit found h =
      ap
        (λ (x : Result (Option UserResponse) × State W).
          ◌>>=◌ (λ (t : State W). x) (λ (o : Option UserResponse). or_load svc o load) s)
        (sym found)
      ∙ h

  -- If GetProfile answers while each cached profile is current, the answer is what the user's row
  -- shows, from the cache or not; each cached profile is current after it, and the tables are the
  -- same.
  pub get_profile-IsCurrent :
      (id : Uuid) (s s' : State W) (r : UserResponse)
      → svc.cache ≡ some c
      → IsCoherent s
      → get_profile svc id s ≡ (ok r, s')
      → IsCurrent id r s.db × IsCoherent s' × (s'.db ≡ s.db)
  unfolding get_profile
  get_profile-IsCurrent id s s' r cached coherent got =
      let key = profile_key svc.uuid id in
      let coherent1 : IsCoherent (asked key s) = λ id2 v r2 there.
        coherent id2 v r2 (sym (laws.get_view key (profile_key svc.uuid id2) s.world) ∙ there) in
      elim (cached_profile-cases key s cached) [
        | inl miss ↦
            let loaded : load_profile svc key id (asked key s) ≡ (ok r, s') =
              after_lookup key s (load_profile svc key id) none miss got in
            let (current, coherent2, same) =
              load_profile-IsCoherent id (asked key s) s' r cached coherent1 loaded in
            (rw (← same) current, coherent2, same)
        | inr (v, found, there, read, hit) ↦
            let answered : ◌≡◌ {A = Result UserResponse × State W} (ok found, asked key s)
                (ok r, s') =
              after_lookup key s (load_profile svc key id) (some found) hit got in
            let same : asked key s ≡ s' =
              ap (λ (q : Result UserResponse × State W). q.1) answered in
            let same_answer : found ≡ r = cc in
            (
              coherent id v r (laws.get_value key v s.world there) (read ∙ ap ok same_answer),
              subst IsCoherent same coherent1,
              ap (λ (t : State W). t.db) (sym same),
            )
      ]
