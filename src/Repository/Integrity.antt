-- ===== src/Repository/Integrity.antt =====
-- The integrity of the two tables under the repositories' writes (internal/repository, with the
-- schema of internal/database/migrate.go).
use pulse_notify.Prelude.{
  ℕ, ℤ, pos, ◌==◌, if◌then◌else◌, ◌≡◌, refl, sym, ◌∙◌, ◌≢◌, inl, inr, Option-cases, Bool-cases,
  Bool, true, false, List, [], ◌∷◌, none, some, Text, text_eq_iff, arith, any, All, All-imp,
  All-map,
}
use pulse_notify.Model.{
  Uuid, Instant, User, Notification, NotificationStatus, pending, sent, failed,
}
use pulse_notify.External.{Statement}
use pulse_notify.State.{Db}
use pulse_notify.Database.{
  fits_int4, user_fits, same_user, user_violation, notification_fits, notification_violation,
}
use pulse_notify.Repository.Users.{new_user, insert_user}
use pulse_notify.Repository.Notifications.{
  new_notification, insert_notification, update_rows, set_sent, set_failed, update_sent,
  update_failed,
}

abbrev pub DistinctUsers : List User → Type 0
DistinctUsers [] = Unit
DistinctUsers (u ∷ us) =
    All (λ (v : User). (v.id ≢ u.id) × (v.email ≢ u.email)) us × DistinctUsers us

abbrev pub DistinctIds : List Notification → Type 0
DistinctIds [] = Unit
DistinctIds (n ∷ ns) = All (λ (m : Notification). m.id ≢ n.id) ns × DistinctIds ns

abbrev pub IsOwned : List User → Notification → Type 0
IsOwned us n = any (λ (u : User). u.id == n.user_id) us ≡ true

abbrev StatusFields : NotificationStatus → Notification → Type 0
StatusFields pending n = (n.attempts ≡ pos 0) × (n.last_error ≡ []) × (n.sent_at ≡ none)
StatusFields sent n = (n.last_error ≡ []) × ((t : Instant) × (n.sent_at ≡ some t))
StatusFields failed n = Unit

-- A pending row is untouched; a sent row has its instant and no error.
abbrev pub IsConsistent : Notification → Type 0
IsConsistent n = StatusFields n.status n

pub record IsValid (db : Db) : Type 0 where
  pub distinct_users : DistinctUsers db.users
  pub distinct_ids : DistinctIds db.notifications
  pub owned : All (IsOwned db.users) db.notifications
  pub user_widths : All (λ u. user_fits u ≡ true) db.users
  pub widths : All (λ n. notification_fits n ≡ true) db.notifications
  pub consistent : All IsConsistent db.notifications

any-false {ℓ} :
    {A : Type ℓ} (p : A → Bool) (xs : List A) → any p xs ≡ false → All (λ x. p x ≡ false) xs
any-false p [] h = tt
any-false p (x ∷ xs) h = (ground arith, any-false p xs (ground arith))

ne_of_test : (a b : ℕ) → (a == b) ≡ false → a ≢ b
ne_of_test a b h e = ground arith

not_same_user : (u v : User) → same_user u v ≡ false → (v.id ≢ u.id) × (v.email ≢ u.email)
not_same_user u v h =
    (ground (arith, text_eq_iff v.email u.email), λ e. ground (arith, text_eq_iff v.email u.email))

IsOwned-cons : (u : User) (us : List User) (n : Notification) → IsOwned us n → IsOwned (u ∷ us) n
IsOwned-cons u us n h = ground arith

-- What a row that breaks no constraint satisfies.
user_violation-none :
    (u : User) (db : Db)
    → user_violation u db ≡ none
    → (user_fits u ≡ true) × (any (same_user u) db.users ≡ false)
unfolding user_violation
user_violation-none u db h = ground arith

notification_violation-none :
    (n : Notification) (db : Db)
    → notification_violation n db ≡ none
    → (notification_fits n ≡ true)
      × (any (λ (m : Notification). m.id == n.id) db.notifications ≡ false)
      × IsOwned db.users n
unfolding notification_violation
notification_violation-none n db h = ground arith

cons_user-IsValid :
    (u : User) (db : Db)
    → user_violation u db ≡ none
    → IsValid db
    → IsValid (record db { users = u ∷ db.users })
cons_user-IsValid u db h v =
    let (wide, fresh) = user_violation-none u db h in
    record {
      distinct_users = (
        All-imp (not_same_user u) db.users (any-false (same_user u) db.users fresh),
        v.distinct_users,
      );
      distinct_ids = v.distinct_ids;
      owned = All-imp (IsOwned-cons u db.users) db.notifications v.owned;
      user_widths = (wide, v.user_widths);
      widths = v.widths;
      consistent = v.consistent;
    }

cons_notification-IsValid :
    (n : Notification) (db : Db)
    → notification_violation n db ≡ none
    → IsConsistent n
    → IsValid db
    → IsValid (record db { notifications = n ∷ db.notifications })
cons_notification-IsValid n db h c v =
    let (wide, fresh, owner) = notification_violation-none n db h in
    record {
      distinct_users = v.distinct_users;
      distinct_ids = (
        All-imp (λ (m : Notification) e. ne_of_test m.id n.id e) db.notifications
            (any-false (λ (m : Notification). m.id == n.id) db.notifications fresh),
        v.distinct_ids,
      );
      owned = (owner, v.owned);
      user_widths = v.user_widths;
      widths = (wide, v.widths);
      consistent = (c, v.consistent);
    }

pub insert_user-IsValid :
    (email hash name role : Text) (st : Statement) (db : Db)
    → IsValid db
    → IsValid (insert_user email hash name role st db).1
unfolding insert_user
insert_user-IsValid email hash name role st db v =
    elim (Option-cases (user_violation (new_user email hash name role st) db)) [
      | inl e ↦ rw (e, insert_user) (cons_user-IsValid (new_user email hash name role st) db e v)
      | inr (x, e) ↦ rw (e, insert_user) v
    ]

pub insert_notification-IsValid :
    (user_id : Uuid) (channel recipient subject body : Text) (st : Statement) (db : Db)
    → IsValid db
    → IsValid (insert_notification user_id channel recipient subject body st db).1
unfolding insert_notification
insert_notification-IsValid user_id channel recipient subject body st db v =
    let row = new_notification user_id channel recipient subject body st in
    elim (Option-cases (notification_violation row db)) [
      | inl e ↦
          rw (e, insert_notification) (cons_notification-IsValid row db e (refl, refl, refl) v)
      | inr (x, e) ↦ rw (e, insert_notification) v
    ]

-- An update of the rows with one id, which keeps their keys and widths.
record Keeps (f : Notification → Notification) : Type 0 where
  same_id : (n : Notification) → (f n).id ≡ n.id
  same_owner : (n : Notification) → (f n).user_id ≡ n.user_id
  same_width : (n : Notification) → notification_fits (f n) ≡ notification_fits n
  makes_consistent : (n : Notification) → IsConsistent (f n)

module _ (id : Uuid) (f : Notification → Notification) (k : Keeps f) where
  abbrev change : Notification → Notification
  change n = if n.id == id then f n else n

  change-id : (n : Notification) → (change n).id ≡ n.id
  change-id n = ground (arith, k.same_id n)

  update_rows-distinct :
      (ns : List Notification) → DistinctIds ns → DistinctIds (update_rows id f ns)
  unfolding update_rows
  update_rows-distinct [] d = tt
  update_rows-distinct (n ∷ ns) (fresh, d) = (
    All-map (λ m. m.id ≢ (change n).id) change ns
        (All-imp (λ m ne e. ne (sym (change-id m) ∙ e ∙ change-id n)) ns fresh),
    update_rows-distinct ns d,
  )

  update_rows-All {κ} :
      (P : Notification → Type κ) (keep : (n : Notification) → P n → P (change n))
      (ns : List Notification)
      → All P ns
      → All P (update_rows id f ns)
  unfolding update_rows
  update_rows-All P keep ns h = All-map P change ns (All-imp keep ns h)

  update_rows-IsValid :
      (db : Db)
      → IsValid db
      → IsValid (record db { notifications = update_rows id f db.notifications })
  update_rows-IsValid db v = record {
    distinct_users = v.distinct_users;
    distinct_ids = update_rows-distinct db.notifications v.distinct_ids;
    owned =
        update_rows-All (IsOwned db.users) (λ n o. ground (arith, k.same_owner n)) db.notifications
          v.owned;
    user_widths = v.user_widths;
    widths =
        update_rows-All (λ n. notification_fits n ≡ true) (λ n w. ground (arith, k.same_width n))
          db.notifications v.widths;
    consistent =
        update_rows-All IsConsistent (λ n c. ground (arith, k.makes_consistent n)) db.notifications
          v.consistent;
  }

set_sent-Keeps : (attempts : ℤ) (now : Instant) → Keeps (set_sent attempts now)
set_sent-Keeps attempts now = record {
  same_id = λ n. refl;
  same_owner = λ n. refl;
  same_width = λ n. refl;
  makes_consistent = λ n. (refl, (now, refl));
}

set_failed-Keeps :
    (attempts : ℤ) (last_error : Text) (now : Instant) → Keeps (set_failed attempts last_error now)
set_failed-Keeps attempts last_error now = record {
  same_id = λ n. refl;
  same_owner = λ n. refl;
  same_width = λ n. refl;
  makes_consistent = λ n. tt;
}

pub update_sent-IsValid :
    (id : Uuid) (attempts : ℤ) (st : Statement) (db : Db)
    → IsValid db
    → IsValid (update_sent id attempts st db).1
unfolding update_sent
update_sent-IsValid id attempts st db v = elim (Bool-cases (fits_int4 attempts)) [
  | inl e ↦
      rw (e, update_sent)
        (update_rows-IsValid id (set_sent attempts st.now) (set_sent-Keeps attempts st.now) db v)
  | inr e ↦ rw (e, update_sent) v
]

pub update_failed-IsValid :
    (id : Uuid) (attempts : ℤ) (last_error : Text) (st : Statement) (db : Db)
    → IsValid db
    → IsValid (update_failed id attempts last_error st db).1
unfolding update_failed
update_failed-IsValid id attempts last_error st db v = elim (Bool-cases (fits_int4 attempts)) [
  | inl e ↦
      rw (e, update_failed)
        (update_rows-IsValid id (set_failed attempts last_error st.now)
          (set_failed-Keeps attempts last_error st.now) db v)
  | inr e ↦ rw (e, update_failed) v
]
