-- ===== src/Service/Tables.antt =====
-- Which tables the operations of internal/service touch; the notification service is in Lists.
pub mod Lists
use pulse_notify.Prelude.{
  ℤ, ◌≡◌, refl, sym, subst, ◌∙◌, inl, inr, Bool, true, false, Bool-cases, Option, none, some,
  Option-cases, List, [], ◌∷◌, arith, Text, codes, any, text_eq,
}
use pulse_notify.Errors.{
  ok, Result-cases, user_not_found, invalid_credentials, invalid_refresh, duplicate_email,
  email_taken,
}
use pulse_notify.Model.{
  Uuid, User, UserResponse, Notification, NotificationResponse, user_to_response,
  notification_to_response,
}
use pulse_notify.External.{Postgres, Redis, Statement}
use pulse_notify.State.{Db, State, ◌>>=◌, pure, on_error}
use pulse_notify.State.Inversion.{>>=-keeps}
use pulse_notify.Database.{Sql, run_statement}
use pulse_notify.Database.Outcome.{run_statement-keeps}
use pulse_notify.Repository.Users
use pulse_notify.Repository.Notifications
use pulse_notify.Cache.{get, get_json, set_json, delete}
use pulse_notify.Auth.{hash_password, check_password}
use pulse_notify.Service.Accounts.{
  AuthService, canonical_email, replace_error, issue_tokens, signup, admit, login, rotate,
  refresh_with, refresh, logout, cached_profile, store_profile, load_profile, get_profile,
  profile_key, refresh_key,
}
use pulse_notify.Service.Accounts as Accounts
use pulse_notify.Service.Notifications.{
  NotificationService, canonical, allowed_channels, announce, enqueue_checked, enqueue, cached,
  store, load_list, list_for_user, list_all, normalize_limit, list_key, to_responses,
}
use pulse_notify.Service.Notifications as Service
use pulse_notify.Service.Signup.{issue_tokens-db}
use pulse_notify.Service.Enqueue.{announce-db}

-- The state still has these tables.
abbrev pub Has : {W : Type 0} → Db → State W → Type 0
Has db s = s.db ≡ db

module _ {W : Type 0} (pg : Postgres W) (s : State W) where
  find_by_email-Has : (email : Text) → Has s.db (Users.find_by_email pg email s).1
  unfolding Users.find_by_email Users.select_user_by_email
  find_by_email-Has email =
      run_statement-keeps (λ (db : Db). db ≡ s.db) pg (Users.select_user_by_email email)
        (λ st db p. p) s refl

  find_by_id-Has : (id : Uuid) → Has s.db (Users.find_by_id pg id s).1
  unfolding Users.find_by_id Users.select_user_by_id
  find_by_id-Has id =
      run_statement-keeps (λ (db : Db). db ≡ s.db) pg (Users.select_user_by_id id) (λ st db p. p) s
        refl

  pub find_notification-Has : (id : Uuid) → Has s.db (Notifications.find_by_id pg id s).1
  unfolding Notifications.find_by_id Notifications.select_notification
  find_notification-Has id =
      run_statement-keeps (λ (db : Db). db ≡ s.db) pg (Notifications.select_notification id)
        (λ st db p. p) s refl

module _ {W : Type 0} (svc : AuthService W) where
  admit-Has : (known : Bool) (user : User) (s : State W) → Has s.db (admit svc known user s).1
  admit-Has true user s = issue_tokens-db svc user s
  admit-Has false user s = refl

  pub login-Has : (email password : Text) (s : State W) → Has s.db (login svc email password s).1
  unfolding login
  login-Has email password s =
      >>=-keeps (Has s.db)
        (on_error (replace_error user_not_found invalid_credentials)
          (Users.find_by_email svc.users (canonical_email svc email)))
        (λ (user : User). admit svc (check_password svc.bcrypt user.password_hash password) user) s
        (find_by_email-Has svc.users s (canonical_email svc email))
        (λ user s1 p. admit-Has (check_password svc.bcrypt user.password_hash password) user s1 ∙ p)

  rotate-Has :
      (c : Redis W) (key : Text) (id : Uuid) (s : State W) → Has s.db (rotate svc c key id s).1
  unfolding rotate delete
  rotate-Has c key id s =
      let s1 = (delete c (key ∷ []) s).1 in
      >>=-keeps (Has s.db)
        (on_error (replace_error user_not_found invalid_refresh) (Users.find_by_id svc.users id))
        (issue_tokens svc) s1 (find_by_id-Has svc.users s1 id)
        (λ user s2 p. issue_tokens-db svc user s2 ∙ p)

  refresh_with-Has :
      (c : Redis W) (key : Text) (s : State W) → Has s.db (refresh_with svc c key s).1
  unfolding refresh_with get
  refresh_with-Has c key s = elim (Result-cases (get c key s).0) [
    | inr (e, failed) ↦ rw (failed, refresh_with) refl
    | inl (found, answered) ↦ elim (Option-cases found) [
      | inl missing ↦ rw (answered, refresh_with, missing) refl
      | inr (stored, there) ↦ elim (Result-cases (svc.uuid.parse stored)) [
        | inr (e, bad) ↦ rw (answered, refresh_with, there, bad) refl
        | inl (id, parsed) ↦
            rw (answered, refresh_with, there, parsed) (rotate-Has c key id (get c key s).1)
      ]
    ]
  ]

  pub refresh-Has : (token : Text) (s : State W) → Has s.db (refresh svc token s).1
  unfolding refresh
  refresh-Has token s = elim (Option-cases svc.cache) [
    | inl none_there ↦ rw (none_there, refresh) refl
    | inr (c, there) ↦ rw (there, refresh) (refresh_with-Has c (refresh_key token) s)
  ]

  pub logout-Has : (token : Text) (s : State W) → Has s.db (logout svc token s).1
  unfolding logout delete
  logout-Has token s = ground arith

  cached_profile-Has : (key : Text) (s : State W) → Has s.db (cached_profile svc key s).1
  unfolding get_json
  cached_profile-Has key s = ground arith

  store_profile-Has :
      (key : Text) (r : UserResponse) (s : State W) → Has s.db (store_profile svc key r s)
  unfolding set_json
  store_profile-Has key r s = ground arith

  load_profile-Has : (key : Text) (id : Uuid) (s : State W) → Has s.db (load_profile svc key id s).1
  unfolding load_profile
  load_profile-Has key id s =
      let shown = user_to_response svc.uuid.to_text in
      >>=-keeps (Has s.db) (Users.find_by_id svc.users id)
        (λ (user : User). λ (s : State W). (ok (shown user), store_profile svc key (shown user) s))
        s (find_by_id-Has svc.users s id) (λ user s1 p. store_profile-Has key (shown user) s1 ∙ p)

  or_load-Has :
      (hit : Option UserResponse) (key : Text) (id : Uuid) (s : State W)
      → Has s.db (Accounts.or_load svc hit (load_profile svc key id) s).1
  or_load-Has (some r) key id s = refl
  or_load-Has none key id s = load_profile-Has key id s

  pub get_profile-Has : (id : Uuid) (s : State W) → Has s.db (get_profile svc id s).1
  unfolding get_profile
  get_profile-Has id s =
      let key = profile_key svc.uuid id in
      >>=-keeps (Has s.db) (cached_profile svc key)
        (λ (hit : Option UserResponse). Accounts.or_load svc hit (load_profile svc key id)) s
        (cached_profile-Has key s) (λ hit s1 p. or_load-Has hit key id s1 ∙ p)

  -- Signup's writes to the tables are those of one Create with the role user.
  pub signup-keeps :
      (P : Db → Type 0)
      → ((email hash name : Text) (s : State W)
          → P s.db
          → P (Users.create svc.users email hash name (codes "user") s).1.db)
      → (email password name : Text) (s : State W) → P s.db
      → P (signup svc email password name s).1.db
  unfolding signup hash_password
  signup-keeps P created email password name s p =
      let insert = λ (hash : Text).
        on_error (replace_error duplicate_email email_taken)
          (Users.create svc.users (canonical_email svc email) hash name (codes "user")) in
      let Q = λ (t : State W). P t.db in
      >>=-keeps Q (hash_password svc.bcrypt password)
        (λ (hash : Text). insert hash >>= issue_tokens svc) s p
        (λ hash s1 p1.
          >>=-keeps Q (insert hash) (issue_tokens svc) s1
            (created (canonical_email svc email) hash name s1 p1)
            (λ user s2 p2. subst P (sym (issue_tokens-db svc user s2)) p2))
