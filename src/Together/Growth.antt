-- ===== src/Together/Growth.antt =====
-- What the writes of internal/repository add to the tables, and what they leave as it is.
use pulse_notify.Prelude.{
  any, arith, ◌&&◌, Bool, true, false, ◌≡◌, refl, ap, ◌∙◌, inl, inr, Bool-cases, ◌==◌, Option-cases,
  List, [], ◌∷◌, ◌++◌, map, All, Text, codes, ℤ,
}
use pulse_notify.Model.{Uuid, Instant, User, Notification, NotificationStatus, pending}
use pulse_notify.External.{Statement}
use pulse_notify.State.{Db}
use pulse_notify.Database.{user_violation, notification_violation, fits_int4}
use pulse_notify.Repository.Users.{new_user, insert_user}
use pulse_notify.Repository.Notifications
use pulse_notify.Repository.Notifications.{
  new_notification, insert_notification, update_rows, set_sent, set_failed, update_sent,
  update_failed,
}

-- What was asked for: all of a row but its status, attempts, error and instants of change.
pub record Request : Type 0 where
  pub id : Uuid
  pub user_id : Uuid
  pub channel : Text
  pub recipient : Text
  pub subject : Text
  pub body : Text
  pub created_at : Instant

abbrev pub request_of : Notification → Request
request_of n = record {
  id = n.id;
  user_id = n.user_id;
  channel = n.channel;
  recipient = n.recipient;
  subject = n.subject;
  body = n.body;
  created_at = n.created_at;
}

-- The list is the old one with more in front.
abbrev pub Extends : {A : Type 0} → List A → List A → Type 0
Extends {A} before after = (new : List A) × (after ≡ new ++ before)

-- Delivered, or given up.
abbrev pub is_done : NotificationStatus → Bool
is_done pending = false
is_done _ = true

-- A row with the id is done.
abbrev pub done_with : Uuid → List Notification → Bool
done_with id = any (λ (n : Notification). n.id == id && is_done n.status)

-- The users are those of `before`, unchanged, with ordinary ones in front; the notifications are
-- those of `before`, each asking for what it did, with others in front; and one that was done is.
pub record Grows (before db : Db) : Type 0 where
  pub new_users : List User
  pub users : db.users ≡ new_users ++ before.users
  pub ordinary : All (λ (u : User). u.role ≡ codes "user") new_users
  pub requests_kept :
      Extends (map request_of before.notifications) (map request_of db.notifications)
  pub done_kept :
      (id : Uuid) → done_with id before.notifications ≡ true → done_with id db.notifications ≡ true

update_rows-done :
    (id other : Uuid) (f : Notification → Notification) (ns : List Notification)
    → ((n : Notification) → (f n).id ≡ n.id)
    → ((n : Notification) → is_done (f n).status ≡ true)
    → done_with other ns ≡ true
    → done_with other (update_rows id f ns) ≡ true
unfolding update_rows
update_rows-done id other f [] same done h = h
update_rows-done id other f (n ∷ ns) same done h =
    elim (Bool-cases (n.id == other && is_done n.status)) [
      | inl here ↦ ground (arith, same n, done n)
      | inr further ↦
          let rest = update_rows-done id other f ns same done (ground arith) in ground (arith, rest)
    ]

update_rows-request :
    (id : Uuid) (f : Notification → Notification) (ns : List Notification)
    → ((n : Notification) → request_of (f n) ≡ request_of n)
    → map request_of (update_rows id f ns) ≡ map request_of ns
unfolding update_rows
update_rows-request id f [] h = refl
update_rows-request id f (n ∷ ns) h =
    let rest = update_rows-request id f ns h in
    elim (Bool-cases (n.id == id)) [
      | inl hit ↦ rw hit (
          ap (λ r. r ∷ map request_of (update_rows id f ns)) (h n)
          ∙ ap (λ rs. request_of n ∷ rs) rest)
      | inr miss ↦ rw miss (ap (λ rs. request_of n ∷ rs) rest)
    ]

module _ (before : Db) where
  pub insert_user-Grows :
      (email hash name : Text) (st : Statement) (db : Db)
      → Grows before db
      → Grows before (insert_user email hash name (codes "user") st db).1
  unfolding insert_user
  insert_user-Grows email hash name st db g =
      let row = new_user email hash name (codes "user") st in
      elim (Option-cases (user_violation row db)) [
        | inr (e, bad) ↦ rw (bad, insert_user) g
        | inl fine ↦
            rw (fine, insert_user)
              (record {
                new_users = row ∷ g.new_users;
                users = ap (λ us. row ∷ us) g.users;
                ordinary = (refl, g.ordinary);
                requests_kept = g.requests_kept;
                done_kept = g.done_kept;
              })
      ]

  pub insert_notification-Grows :
      (id : Uuid) (channel recipient subject body : Text) (st : Statement) (db : Db)
      → Grows before db
      → Grows before (insert_notification id channel recipient subject body st db).1
  unfolding insert_notification
  insert_notification-Grows id channel recipient subject body st db g =
      let row = new_notification id channel recipient subject body st in
      elim (Option-cases (notification_violation row db)) [
        | inr (e, bad) ↦ rw (bad, insert_notification) g
        | inl fine ↦
            rw (fine, insert_notification)
              (record {
                new_users = g.new_users;
                users = g.users;
                ordinary = g.ordinary;
                requests_kept = (
                  request_of row ∷ g.requests_kept.0,
                  ap (λ rs. request_of row ∷ rs) g.requests_kept.1,
                );
                done_kept = λ id h. ground (arith, g.done_kept id h);
              })
      ]

  pub updated-Grows :
      (attempts : ℤ) (id : Uuid) (f : Notification → Notification) (db : Db)
      → ((n : Notification) → request_of (f n) ≡ request_of n)
      → ((n : Notification) → is_done (f n).status ≡ true)
      → Grows before db
      → Grows before (Notifications.updated attempts id f db).1
  updated-Grows attempts id f db same done g = elim (Bool-cases (fits_int4 attempts)) [
    | inr big ↦ rw big g
    | inl fits ↦ rw fits (record {
      new_users = g.new_users;
      users = g.users;
      ordinary = g.ordinary;
      requests_kept =
          (g.requests_kept.0, update_rows-request id f db.notifications same ∙ g.requests_kept.1);
      done_kept = λ other h.
          update_rows-done id other f db.notifications (λ n. ap (λ (r : Request). r.id) (same n))
            done (g.done_kept other h);
    })
  ]

pub Grows-refl : (db : Db) → Grows db db
Grows-refl db = record {
  new_users = [];
  users = refl;
  ordinary = tt;
  requests_kept = ([], refl);
  done_kept = λ id h. h;
}
