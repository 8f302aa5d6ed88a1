-- ===== src/Repository/Users.antt =====
-- internal/repository/user.go
use pulse_notify.Prelude.{◌==◌, if◌then◌else◌, ◌∷◌, none, some, Text, codes, text_eq, find?}
use pulse_notify.Errors.{
  Error, sentinel, wrapped, user_not_found, duplicate_email, no_rows, errors_is, has_pg_code, ok,
  err,
}
use pulse_notify.Model.{Uuid, User}
use pulse_notify.External.{Statement, Postgres}
use pulse_notify.State.{M, on_error}
use pulse_notify.Database.{Sql, run_statement, first_row, user_violation}

-- The row that INSERT INTO users makes.
abbrev pub new_user : Text → Text → Text → Text → Statement → User
new_user email password_hash name role st = record {
  id = st.uuid;
  email = email;
  password_hash = password_hash;
  name = name;
  role = role;
  created_at = st.now;
  updated_at = st.now;
}

-- INSERT INTO users … RETURNING …
unfoldable pub insert_user : Text → Text → Text → Text → Sql User
insert_user email password_hash name role st db =
    let row = new_user email password_hash name role st in
    elim (user_violation row db) [
      | none ↦ (ok row, record db { users = row ∷ db.users })
      | some e ↦ (err e, db)
    ]

-- SELECT … FROM users WHERE email = $1
unfoldable pub select_user_by_email : Text → Sql User
select_user_by_email email st db =
    (first_row (find? (λ (u : User). text_eq u.email email) db.users), db)

-- SELECT … FROM users WHERE id = $1
unfoldable pub select_user_by_id : Uuid → Sql User
select_user_by_id id st db = (first_row (find? (λ (u : User). u.id == id) db.users), db)

abbrev pub create_error : Error → Error
create_error e =
    if has_pg_code e (codes "23505")
    then sentinel duplicate_email
    else wrapped (codes "insert user") e

abbrev pub not_found_error : Text → Error → Error
not_found_error text e = if errors_is e no_rows then sentinel user_not_found else wrapped text e

module _ {W : Type 0} (pg : Postgres W) where
  -- (r *UserRepository) Create
  unfoldable pub create : Text → Text → Text → Text → M W User
  unfolding run_statement insert_user has_pg_code
  create email password_hash name role =
      on_error create_error (run_statement pg (insert_user email password_hash name role))

  -- (r *UserRepository) FindByEmail
  unfoldable pub find_by_email : Text → M W User
  unfolding run_statement select_user_by_email errors_is
  find_by_email email =
      on_error (not_found_error (codes "find user by email"))
        (run_statement pg (select_user_by_email email))

  -- (r *UserRepository) FindByID
  unfoldable pub find_by_id : Uuid → M W User
  unfolding run_statement select_user_by_id errors_is
  find_by_id id =
      on_error (not_found_error (codes "find user by id")) (run_statement pg (select_user_by_id id))
