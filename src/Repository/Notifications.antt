-- ===== src/Repository/Notifications.antt =====
-- internal/repository/notification.go
use pulse_notify.Prelude.{
  ℤ, pos, negsuc, ◌==◌, leb, if◌then◌else◌, List, [], ◌∷◌, map, none, some, Text, codes, find?,
  take, select,
}
use pulse_notify.Errors.{
  Error, sentinel, wrapped, pg_error, notification_not_found, no_rows, errors_is, Result, ok, err,
}
use pulse_notify.Model.{Uuid, Instant, Notification, pending, sent, failed}
use pulse_notify.External.{Delivery, delivered, refused, unacknowledged, Statement, Postgres}
use pulse_notify.State.{Db, M, on_error, stated}
use pulse_notify.Database.{
  Sql, run_statement, first_row, notification_violation, fits_int4, int4_overflow,
}

-- The row that INSERT INTO notifications makes: pending, the other columns by their defaults.
abbrev pub new_notification : Uuid → Text → Text → Text → Text → Statement → Notification
new_notification user_id channel recipient subject body st = record {
  id = st.uuid;
  user_id = user_id;
  channel = channel;
  recipient = recipient;
  subject = subject;
  body = body;
  status = pending;
  attempts = pos 0;
  last_error = [];
  created_at = st.now;
  updated_at = st.now;
  sent_at = none;
}

-- INSERT INTO notifications … RETURNING …
unfoldable pub insert_notification : Uuid → Text → Text → Text → Text → Sql Notification
insert_notification user_id channel recipient subject body st db =
    let row = new_notification user_id channel recipient subject body st in
    elim (notification_violation row db) [
      | none ↦ (ok row, record db { notifications = row ∷ db.notifications })
      | some e ↦ (err e, db)
    ]

-- SELECT … FROM notifications WHERE id = $1
unfoldable pub select_notification : Uuid → Sql Notification
select_notification id st db =
    (first_row (find? (λ (n : Notification). n.id == id) db.notifications), db)

-- ORDER BY created_at DESC; rows of one instant stay in the table's order.
unfoldable pub insert_newest : Notification → List Notification → List Notification
insert_newest n [] = n ∷ []
insert_newest n (m ∷ ms) =
    if leb m.created_at n.created_at then n ∷ m ∷ ms else m ∷ insert_newest n ms

unfoldable pub newest_first : List Notification → List Notification
unfolding insert_newest
newest_first [] = []
newest_first (n ∷ ns) = insert_newest n (newest_first ns)

-- LIMIT $n: a negative limit is an error of the server.
abbrev pub limited : ℤ → List Notification → Result (List Notification)
limited (pos n) rows = ok (take n rows)
limited (negsuc n) rows = err (pg_error (codes "2201W") (codes "LIMIT must not be negative"))

-- SELECT … FROM notifications WHERE user_id = $1 ORDER BY created_at DESC LIMIT $2
unfoldable pub select_by_user : Uuid → ℤ → Sql (List Notification)
unfolding newest_first
select_by_user user_id limit st db = (
  limited limit
      (newest_first (select (λ (n : Notification). n.user_id == user_id) db.notifications)),
  db,
)

-- SELECT … FROM notifications ORDER BY created_at DESC LIMIT $1
unfoldable pub select_all : ℤ → Sql (List Notification)
unfolding newest_first
select_all limit st db = (limited limit (newest_first db.notifications), db)

-- UPDATE notifications SET … WHERE id = $1
unfoldable pub update_rows :
    Uuid → (Notification → Notification) → List Notification → List Notification
update_rows id f = map λ n. if n.id == id then f n else n

abbrev pub set_sent : ℤ → Instant → Notification → Notification
set_sent attempts now n = record n {
  status = sent;
  attempts = attempts;
  last_error = [];
  sent_at = some now;
  updated_at = now;
}

abbrev pub set_failed : ℤ → Text → Instant → Notification → Notification
set_failed attempts last_error now n = record n {
  status = failed;
  attempts = attempts;
  last_error = last_error;
  updated_at = now;
}

abbrev pub updated : ℤ → Uuid → (Notification → Notification) → Db → Result (Unit {0}) × Db
updated attempts id f db =
    if fits_int4 attempts
    then (ok tt, record db { notifications = update_rows id f db.notifications })
    else (err int4_overflow, db)

-- UPDATE notifications SET status = 'sent', …
unfoldable pub update_sent : Uuid → ℤ → Sql (Unit {0})
update_sent id attempts st db = updated attempts id (set_sent attempts st.now) db

-- UPDATE notifications SET status = 'failed', …
unfoldable pub update_failed : Uuid → ℤ → Text → Sql (Unit {0})
update_failed id attempts last_error st db =
    updated attempts id (set_failed attempts last_error st.now) db

-- The errors of Query, and of Rows.Err after the loop.
abbrev pub query_outcome : Delivery → Result (List Notification) → Result (List Notification)
query_outcome delivered r = r
query_outcome (refused e) r = err (wrapped (codes "list notifications") e)
query_outcome (unacknowledged e) r = err e

module _ {W : Type 0} (pg : Postgres W) where
  -- (r *NotificationRepository) Create
  unfoldable pub create : Uuid → Text → Text → Text → Text → M W Notification
  unfolding run_statement insert_notification
  create user_id channel recipient subject body =
      on_error (wrapped (codes "insert notification"))
        (run_statement pg (insert_notification user_id channel recipient subject body))

  abbrev pub find_error : Error → Error
  find_error e =
      if errors_is e no_rows
      then sentinel notification_not_found
      else wrapped (codes "find notification by id") e

  -- (r *NotificationRepository) FindByID
  unfoldable pub find_by_id : Uuid → M W Notification
  unfolding run_statement select_notification errors_is
  find_by_id id = on_error find_error (run_statement pg (select_notification id))

  -- (r *NotificationRepository) queryList
  unfoldable pub query_list : Sql (List Notification) → M W (List Notification)
  query_list q s =
      let (st, w) = pg.statement s.world in
      (
        query_outcome st.delivery (q st s.db).0,
        record s { world = w; calls = stated st.delivery ∷ s.calls },
      )

  -- (r *NotificationRepository) ListByUser
  unfoldable pub list_by_user : Uuid → ℤ → M W (List Notification)
  unfolding query_list select_by_user
  list_by_user user_id limit = query_list (select_by_user user_id limit)

  -- (r *NotificationRepository) ListAll
  unfoldable pub list_all : ℤ → M W (List Notification)
  unfolding query_list select_all
  list_all limit = query_list (select_all limit)

  -- (r *NotificationRepository) MarkSent
  unfoldable pub mark_sent : Uuid → ℤ → M W (Unit {0})
  unfolding run_statement update_sent
  mark_sent id attempts =
      on_error (wrapped (codes "mark sent")) (run_statement pg (update_sent id attempts))

  -- (r *NotificationRepository) MarkFailed
  unfoldable pub mark_failed : Uuid → ℤ → Text → M W (Unit {0})
  unfolding run_statement update_failed
  mark_failed id attempts last_error =
      on_error (wrapped (codes "mark failed"))
        (run_statement pg (update_failed id attempts last_error))
