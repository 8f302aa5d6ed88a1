-- ===== src/Service/Enqueue.antt =====
-- What Enqueue (internal/service/notification.go) stores and publishes.
use pulse_notify.Prelude.{
  ℕ, ℤ, pos, pos_part, leb_ℤ, ltb_ℤ, ◌≤◌, ◌≡◌, refl, sym, ap, subst, ◌∙◌, ◌⊎◌, inl, inr, true,
  Bool-cases, none, Option-cases, ◌∷◌, arith, any, Text, text_eq, codes, if◌then◌else◌,
}
use pulse_notify.Errors.{Error, Result, ok, err, wrapped}
use pulse_notify.Model.{
  Uuid, Instant, Notification, NotificationResponse, pending, notification_to_response,
}
use pulse_notify.External.{Postgres, Statement}
use pulse_notify.State.{Db, State, ◌>>=◌}
use pulse_notify.State.Inversion.{>>=-eq-ok, >>=-keeps}
use pulse_notify.Database.Outcome.{outcome-cases, outcome-eq-ok}
use pulse_notify.Database.{notification_violation}
use pulse_notify.Repository.Notifications
use pulse_notify.Repository.Notifications.{new_notification, insert_notification}
use pulse_notify.Cache.{delete}
use pulse_notify.Service.Notifications.{
  NotificationService, normalize_limit, canonical, allowed_channels, event_of, announce,
  enqueue_checked, enqueue, invalidate_user_cache,
}

-- The limit that a query gets is from 1 to 100. A limit in that range is kept, one that is not
-- positive gives 20, and one above 100 gives 100.
pub normalize_limit_bounds :
    (limit : ℤ)
    → (n : ℕ) × (normalize_limit limit ≡ pos n)
      × (1 ≤ n)
      × (n ≤ 100)
      × (n ≡ (
          if leb_ℤ limit (pos 0)
          then 20
          else if ltb_ℤ (pos 100) limit
          then 100
          else pos_part limit))
unfolding normalize_limit
normalize_limit_bounds limit = (
  (if leb_ℤ limit (pos 0) then 20 else if ltb_ℤ (pos 100) limit then 100 else pos_part limit),
  ground arith,
  ground arith,
  ground arith,
  refl,
)

-- `after` is `before` with one more row in front: pending, of this user, on this channel.
pub record AddsPending (user_id : Uuid) (channel : Text) (row : Notification) (before after : Db)
    : Type 0 where
  pub added : after ≡ record before { notifications = row ∷ before.notifications }
  pub status : row.status ≡ pending
  pub owner : row.user_id ≡ user_id
  pub by_channel : row.channel ≡ channel

module _ (user_id : Uuid) (channel recipient subject body : Text) where
  abbrev Insertion : Db → Result Notification × Db → Type 0
  Insertion db r =
      ((r.1 ≡ db) × ((e : Error) × (r.0 ≡ err e)))
      ⊎ ((n : Notification) × (r.0 ≡ ok n) × AddsPending user_id channel n db r.1)

  insert-Insertion :
      (st : Statement) (db : Db)
      → Insertion db (insert_notification user_id channel recipient subject body st db)
  unfolding insert_notification
  insert-Insertion st db =
      let row = new_notification user_id channel recipient subject body st in
      elim (Option-cases (notification_violation row db)) [
        | inl e ↦
            rw (e, insert_notification)
              (inr (
                row,
                refl,
                record { added = refl; status = refl; owner = refl; by_channel = refl },
              ))
        | inr (x, e) ↦ rw (e, insert_notification) (inl (refl, (x, refl)))
      ]

  module _ {W : Type 0} (pg : Postgres W) (s : State W) where
    abbrev pub created : Result Notification × State W
    created = Notifications.create pg user_id channel recipient subject body s

    abbrev pub MayAdd : Db → Type 0
    MayAdd after = (after ≡ s.db) ⊎ ((n : Notification) × AddsPending user_id channel n s.db after)

    -- A row is added, or the tables stay as they were.
    pub create-db : MayAdd created.1.db
    unfolding Notifications.create
    create-db =
        let st = (pg.statement s.world).0 in
        outcome-cases MayAdd st.delivery
          (insert_notification user_id channel recipient subject body st s.db) s.db
          (elim (insert-Insertion st s.db) [
            | inl (same, _) ↦ inl same
            | inr (n, _, a) ↦ inr (n, a)
          ])
          (inl refl)

    pub create-eq-ok :
        (n : Notification) → created.0 ≡ ok n → AddsPending user_id channel n s.db created.1.db
    unfolding Notifications.create
    create-eq-ok n h =
        let st = (pg.statement s.world).0 in
        let q = insert_notification user_id channel recipient subject body st s.db in
        let (answered, kept) =
          outcome-eq-ok (wrapped (codes "insert notification")) st.delivery q s.db n h in
        elim (insert-Insertion st s.db) [
          | inl (_, (e, failed)) ↦ absurd (ground arith)
          | inr (m, done, a) ↦
              let same : m ≡ n = ground arith in
              rw kept (subst (λ k. AddsPending user_id channel k s.db q.1) same a)
        ]

module _ {W : Type 0} (svc : NotificationService W) where
  invalidate-db : (user_id : Uuid) (s : State W) → (invalidate_user_cache svc user_id s).db ≡ s.db
  unfolding invalidate_user_cache delete
  invalidate-db user_id s = elim (Option-cases svc.cache) [
    | inl none_there ↦ rw (none_there, invalidate_user_cache) refl
    | inr (c, there) ↦ rw (there, invalidate_user_cache) refl
  ]

  -- What is stored and published for an accepted request.
  pub record IsEnqueued (user_id : Uuid) (channel : Text) (s : State W) (r : NotificationResponse)
      (s' : State W) : Type 0 where
    pub row : Notification
    pub world : W
    pub instant : Instant
    pub added : AddsPending user_id channel row s.db s'.db
    pub published : (svc.producer (event_of svc.uuid row instant) world).0 ≡ none
    pub answered : r ≡ notification_to_response svc.uuid.to_text row

  pub announce-db :
      (user_id : Uuid) (n : Notification) (s : State W) → (announce svc user_id n s).1.db ≡ s.db
  unfolding announce
  announce-db user_id n s =
      let w = (svc.clock s.world).1 in
      let evt = event_of svc.uuid n (svc.clock s.world).0 in
      ground (arith, invalidate-db user_id (record s { world = (svc.producer evt w).1 }))

  announce-published :
      (user_id : Uuid) (n : Notification) (r : NotificationResponse) (s s' : State W)
      → announce svc user_id n s ≡ (ok r, s')
      → ((svc.producer (event_of svc.uuid n (svc.clock s.world).0) (svc.clock s.world).1).0 ≡ none)
        × (r ≡ notification_to_response svc.uuid.to_text n)
  unfolding announce
  announce-published user_id n r s s' h = (ground arith, ground arith)

  announce-state :
      (user_id : Uuid) (n : Notification) (r : NotificationResponse) (s s' : State W)
      → announce svc user_id n s ≡ (ok r, s')
      → let (now, w) = svc.clock s.world in
        s'
        ≡ invalidate_user_cache svc user_id
            (record s { world = (svc.producer (event_of svc.uuid n now) w).1 })
  unfolding announce
  announce-state user_id n r s s' h = ground arith

  module _ (user_id : Uuid) (channel recipient subject body : Text) (s : State W) where
    abbrev pub outcome_of : Result NotificationResponse × State W
    outcome_of = enqueue svc user_id channel recipient subject body s

    enqueue_checked-MayAdd :
        (ch : Text)
        → MayAdd user_id ch recipient subject body svc.repo s
            (enqueue_checked svc user_id ch recipient subject body s).1.db
    unfolding enqueue_checked
    enqueue_checked-MayAdd ch =
        let P = λ (t : State W). MayAdd user_id ch recipient subject body svc.repo s t.db in
        >>=-keeps P (Notifications.create svc.repo user_id ch recipient subject body)
          (announce svc user_id) s (create-db user_id ch recipient subject body svc.repo s)
          (λ n s1 p.
            subst (MayAdd user_id ch recipient subject body svc.repo s)
              (sym (announce-db user_id n s1)) p)

    -- Whatever Enqueue returns, the tables stay as they were, or have one more row, which is
    -- pending, of this user, on the channel in its canonical form, one of the three.
    pub enqueue-MayAdd :
        (outcome_of.1.db ≡ s.db)
        ⊎ ((n : Notification) × AddsPending user_id
              (canonical svc.fold channel)
              n
              s.db
              outcome_of.1.db
            × (any (text_eq n.channel) allowed_channels ≡ true))
    unfolding enqueue
    enqueue-MayAdd =
        let ch = canonical svc.fold channel in
        elim (Bool-cases (any (text_eq ch) allowed_channels)) [
          | inr unsupported ↦ rw (unsupported, enqueue) (inl refl)
          | inl supported ↦
              rw (supported, enqueue)
                (elim (enqueue_checked-MayAdd ch) [
                  | inl same ↦ inl same
                  | inr (n, a) ↦ inr (n, a, rw a.by_channel supported)
                ])
        ]

    -- If Enqueue succeeds, it has added such a row, the producer has accepted the event of that
    -- row, and the answer shows the row.
    pub enqueue-IsEnqueued :
        (r : NotificationResponse) (s' : State W)
        → outcome_of ≡ (ok r, s')
        → IsEnqueued user_id (canonical svc.fold channel) s r s'
    unfolding enqueue enqueue_checked
    enqueue-IsEnqueued r s' h =
        let ch = canonical svc.fold channel in
        elim (Bool-cases (any (text_eq ch) allowed_channels)) [
          | inr unsupported ↦ absurd (ground arith)
          | inl supported ↦
              let checked : enqueue_checked svc user_id ch recipient subject body s ≡ (ok r, s') =
                ground arith in
              let (n, s1, made, announced) =
                >>=-eq-ok (Notifications.create svc.repo user_id ch recipient subject body)
                  (announce svc user_id) s checked in
              let (published, answered) = announce-published user_id n r s1 s' announced in
              let a =
                create-eq-ok user_id ch recipient subject body svc.repo s n
                  (ap (λ (p : Result Notification × State W). p.0) made) in
              record {
                row = n;
                world = (svc.clock s1.world).1;
                instant = (svc.clock s1.world).0;
                added =
                    subst (AddsPending user_id ch n s.db)
                      (ap (λ (p : Result Notification × State W). p.1.db) made
                        ∙ sym (announce-db user_id n s1)
                        ∙ ap (λ (p : Result NotificationResponse × State W). p.1.db) announced)
                      a;
                published = published;
                answered = answered;
              }
        ]

    -- What a successful Enqueue called after its INSERT: the clock, the producer, Redis.
    pub enqueue-calls :
        (r : NotificationResponse) (s' s1 : State W) (n : Notification)
        → outcome_of ≡ (ok r, s')
        → Notifications.create svc.repo user_id
            (canonical svc.fold channel)
            recipient
            subject
            body
            s
          ≡ (ok n, s1)
        → let (now, w) = svc.clock s1.world in
          ((svc.producer (event_of svc.uuid n now) w).0 ≡ none)
          × (s'
              ≡ invalidate_user_cache svc user_id
                  (record s1 { world = (svc.producer (event_of svc.uuid n now) w).1 }))
          × AddsPending user_id (canonical svc.fold channel) n s.db s'.db
    unfolding enqueue enqueue_checked
    enqueue-calls r s' s1 n h made =
        let ch = canonical svc.fold channel in
        elim (Bool-cases (any (text_eq ch) allowed_channels)) [
          | inr unsupported ↦ absurd (ground arith)
          | inl supported ↦
              let checked : enqueue_checked svc user_id ch recipient subject body s ≡ (ok r, s') =
                ground arith in
              let announced : announce svc user_id n s1 ≡ (ok r, s') =
                ap
                  (λ (q : Result Notification × State W).
                    ◌>>=◌ (λ (t : State W). q) (announce svc user_id) q.1)
                  (sym made)
                ∙ checked in
              let (published, answered) = announce-published user_id n r s1 s' announced in
              (
                published,
                announce-state user_id n r s1 s' announced,
                subst (AddsPending user_id ch n s.db)
                    (ap (λ (p : Result Notification × State W). p.1.db) made
                      ∙ sym (announce-db user_id n s1)
                      ∙ ap (λ (p : Result NotificationResponse × State W). p.1.db) announced)
                    (create-eq-ok user_id ch recipient subject body svc.repo s n
                      (ap (λ (p : Result Notification × State W). p.0) made)),
              )
        ]
