-- ===== src/Service/Login.antt =====
-- Signup and Login (internal/service/auth.go).
use pulse_notify.Prelude.{
  ◌≡◌, ◌≢◌, refl, sym, ap, ◌∙◌, ◌⊎◌, inl, inr, true, false, Bool-cases, none, some, List, [], ◌∷◌,
  arith, All, find?, Text, text_eq, text_eq_iff,
}
use pulse_notify.Errors.{errors_is, ok, err, sentinel, invalid_credentials, user_not_found}
use pulse_notify.Model.{User, user_to_response}
use pulse_notify.External.{Postgres, delivered}
use pulse_notify.State.{State, on_error}
use pulse_notify.State.Inversion.{>>=-eq-ok, on_error-eq-ok}
use pulse_notify.Repository.Users
use pulse_notify.Repository.Users.{new_user, insert_user, create_error}
use pulse_notify.Auth.{check_password, generate, generate_refresh_token}
use pulse_notify.Service.Accounts.{
  AuthService, AuthResult, canonical_email, replace_error, issue_tokens, admit, login,
}

find?-none :
    (email : Text) (us : List User)
    → All (λ (u : User). u.email ≢ email) us
    → find? (λ (u : User). text_eq u.email email) us ≡ none
find?-none email [] h = refl
find?-none email (u ∷ us) (ne, h) = elim (Bool-cases (text_eq u.email email)) [
  | inl same ↦ absurd (ne ((text_eq_iff u.email email).0 same))
  | inr other ↦ rw other (find?-none email us h)
]

find?-email :
    (email : Text) (us : List User) (user : User)
    → find? (λ (u : User). text_eq u.email email) us ≡ some user
    → user.email ≡ email
find?-email email [] user h = cc
find?-email email (u ∷ us) user h = elim (Bool-cases (text_eq u.email email)) [
  | inl same ↦
      let e : u ≡ user = ground arith in
      ap (λ (v : User). v.email) (sym e) ∙ (text_eq_iff u.email email).0 same
  | inr other ↦ find?-email email us user (ground arith)
]

find_by_email-email :
    {W : Type 0} (pg : Postgres W) (email : Text) (user : User) (s s' : State W)
    → Users.find_by_email pg email s ≡ (ok user, s')
    → user.email ≡ email
unfolding Users.find_by_email
find_by_email-email pg email user s s' h = ground (arith, find?-email email s.db.users user)

find_by_email-missing :
    {W : Type 0} (pg : Postgres W) (email : Text) (s : State W)
    → (pg.statement s.world).0.delivery ≡ delivered
    → All (λ (u : User). u.email ≢ email) s.db.users
    → (Users.find_by_email pg email s).0 ≡ err (sentinel user_not_found)
unfolding Users.find_by_email
find_by_email-missing pg email s answered absent =
    rw (answered, find?-none email s.db.users absent, Users.find_by_email) refl

module _ {W : Type 0} (svc : AuthService W) where
  pub issue_tokens-user :
      (user : User) (r : AuthResult) (s s' : State W)
      → issue_tokens svc user s ≡ (ok r, s')
      → r.user ≡ user_to_response svc.uuid.to_text user
  unfolding issue_tokens generate generate_refresh_token
  issue_tokens-user user r s s' h = ground arith

  refused_password :
      (user : User) (password : Text) (r : AuthResult) (s s' : State W)
      → check_password svc.bcrypt user.password_hash password ≡ false
      → admit svc (check_password svc.bcrypt user.password_hash password) user s ≢ (ok r, s')
  refused_password user password r s s' wrong h =
      let e : admit svc false user s ≡ (ok r, s') = rw wrong at h in cc

  -- A successful Login found a user with the address, trimmed and in lower case; the password
  -- fits the stored hash, and the answer shows that user.
  pub login_sound :
      (email password : Text) (r : AuthResult) (s s' : State W)
      → login svc email password s ≡ (ok r, s')
      → (user : User) × (s1 : State W) × (Users.find_by_email svc.users
            (canonical_email svc email)
            s
          ≡ (ok user, s1))
        × (user.email ≡ canonical_email svc email)
        × (check_password svc.bcrypt user.password_hash password ≡ true)
        × (r.user ≡ user_to_response svc.uuid.to_text user)
  unfolding login
  login_sound email password r s s' h =
      let find = Users.find_by_email svc.users (canonical_email svc email) in
      let (user, s1, looked, rest) =
        >>=-eq-ok (on_error (replace_error user_not_found invalid_credentials) find)
          (λ (u : User). admit svc (check_password svc.bcrypt u.password_hash password) u) s h in
      let found =
        on_error-eq-ok (replace_error user_not_found invalid_credentials) find s {a = user}
          {s' = s1} looked in
      elim (Bool-cases (check_password svc.bcrypt user.password_hash password)) [
        | inl fits ↦ (
          user,
          s1,
          found,
          find_by_email-email svc.users (canonical_email svc email) user s s1 found,
          fits,
          issue_tokens-user user r s1 s' (rw fits at rest),
        )
        | inr wrong ↦ absurd (refused_password user password r s1 s' wrong rest)
      ]

  -- Login answers an unknown address, where the server answers, and a password that does not fit,
  -- with the same error.
  pub login-invalid :
      (email password : Text) (s : State W)
      → (((svc.users.statement s.world).0.delivery ≡ delivered)
          × All (λ (u : User). u.email ≢ canonical_email svc email) s.db.users)
        ⊎ ((user : User) × ((Users.find_by_email svc.users (canonical_email svc email) s).0
              ≡ ok user)
            × (check_password svc.bcrypt user.password_hash password ≡ false))
      → (login svc email password s).0 ≡ err (sentinel invalid_credentials)
  unfolding login errors_is
  login-invalid email password s (inl (answered, absent)) =
      ground (arith, find_by_email-missing svc.users (canonical_email svc email) s answered absent)
  login-invalid email password s (inr (user, found, wrong)) = ground arith
