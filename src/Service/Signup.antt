-- ===== src/Service/Signup.antt =====
-- Signup (internal/service/auth.go).
use pulse_notify.Prelude.{
  subst, ◌≡◌, ◌≢◌, refl, sym, ap, ◌∙◌, inl, inr, true, false, Option-cases, List, [], ◌∷◌, arith,
  any, All, Text, text_eq, text_eq_iff, codes,
}
use pulse_notify.Errors.{
  errors_is, has_pg_code, Result, ok, err, sentinel, email_taken, duplicate_email,
}
use pulse_notify.Model.{User, user_to_response}
use pulse_notify.External.{Postgres, delivered}
use pulse_notify.State.{Db, State, ◌>>=◌, on_error}
use pulse_notify.State.Inversion.{>>=-eq-ok, on_error-eq-ok}
use pulse_notify.Database.{user_violation, user_fits, same_user}
use pulse_notify.Database.Outcome.{outcome-eq-ok}
use pulse_notify.Repository.Users
use pulse_notify.Repository.Users.{new_user, insert_user, create_error}
use pulse_notify.Cache.{set}
use pulse_notify.Auth.{hash_password}
use pulse_notify.Service.Accounts.{
  AuthService, AuthResult, canonical_email, replace_error, issue_tokens, signup,
}
use pulse_notify.Service.Login.{issue_tokens-user}

-- `after` is `before` with one more user in front, who is an ordinary user with this address and
-- name; nobody had the address before.
pub record AddsUser (email name : Text) (user : User) (before after : Db) : Type 0 where
  pub added : after ≡ record before { users = user ∷ before.users }
  pub address : user.email ≡ email
  pub called : user.name ≡ name
  pub ordinary : user.role ≡ codes "user"
  pub unused : All (λ (u : User). u.email ≢ email) before.users

unused_emails :
    (user : User) (us : List User)
    → any (same_user user) us ≡ false
    → All (λ (u : User). u.email ≢ user.email) us
unused_emails user [] h = tt
unused_emails user (u ∷ us) h =
    (λ e. ground (arith, text_eq_iff u.email user.email), unused_emails user us (ground arith))

taken_email :
    (user : User) (us : List User)
    → any (λ (u : User). text_eq u.email user.email) us ≡ true
    → any (same_user user) us ≡ true
taken_email user [] h = cc
taken_email user (u ∷ us) h = ground (arith, taken_email user us)

module _ {W : Type 0} (pg : Postgres W) (email hash name : Text) (s : State W) where
  create-AddsUser :
      (user : User) (s1 : State W)
      → Users.create pg email hash name (codes "user") s ≡ (ok user, s1)
      → AddsUser email name user s.db s1.db
  unfolding Users.create insert_user user_violation
  create-AddsUser user s1 h =
      let st = (pg.statement s.world).0 in
      let row = new_user email hash name (codes "user") st in
      let q = insert_user email hash name (codes "user") st s.db in
      let (answered, kept) =
        outcome-eq-ok create_error st.delivery q s.db user
          (ap (λ (p : Result User × State W). p.0) h) in
      let stored : s1.db ≡ q.1 = ap (λ (p : Result User × State W). p.1.db) (sym h) ∙ kept in
      elim (Option-cases (user_violation row s.db)) [
        | inr (e, broken) ↦ absurd (ground arith)
        | inl fine ↦
            let clear : any (same_user row) s.db.users ≡ false = ground arith in
            let same : row ≡ user = ground arith in
            rw stored (
              subst (λ (k : User). AddsUser email name k s.db q.1) same
                (record {
                  added = rw (fine, insert_user) refl;
                  address = refl;
                  called = refl;
                  ordinary = refl;
                  unused = unused_emails row s.db.users clear;
                }))
      ]

  create-duplicate :
      (pg.statement s.world).0.delivery ≡ delivered
      → user_fits (new_user email hash name (codes "user") (pg.statement s.world).0) ≡ true
      → any (λ (u : User). text_eq u.email email) s.db.users ≡ true
      → (Users.create pg email hash name (codes "user") s).0 ≡ err (sentinel duplicate_email)
  unfolding Users.create user_violation has_pg_code text_eq
  create-duplicate done fits taken =
      let row = new_user email hash name (codes "user") (pg.statement s.world).0 in
      ground (arith, taken_email row s.db.users)

module _ {W : Type 0} (svc : AuthService W) where
  pub issue_tokens-db : (user : User) (s : State W) → (issue_tokens svc user s).1.db ≡ s.db
  unfolding issue_tokens set
  issue_tokens-db user s = ground arith

  -- A successful Signup stored one user, an ordinary one with the given name and the address
  -- trimmed and in lower case, which nobody had before; the answer shows that user.
  pub signup-AddsUser :
      (email password name : Text) (r : AuthResult) (s s' : State W)
      → signup svc email password name s ≡ (ok r, s')
      → (user : User) × AddsUser (canonical_email svc email) name user s.db s'.db
        × (r.user ≡ user_to_response svc.uuid.to_text user)
  unfolding signup hash_password
  signup-AddsUser email password name r s s' h =
      let insert = λ (hash : Text).
        on_error (replace_error duplicate_email email_taken)
          (Users.create svc.users (canonical_email svc email) hash name (codes "user")) in
      let (hash, s1, hashed, rest) =
        >>=-eq-ok (hash_password svc.bcrypt password)
          (λ (hash : Text). insert hash >>= issue_tokens svc) s h in
      let (user, s2, inserted, issued) = >>=-eq-ok (insert hash) (issue_tokens svc) s1 rest in
      let created =
        on_error-eq-ok (replace_error duplicate_email email_taken)
          (Users.create svc.users (canonical_email svc email) hash name (codes "user")) s1
          {a = user} {s' = s2} inserted in
      let adds =
        create-AddsUser svc.users (canonical_email svc email) hash name s1 user s2 created in
      let before : s1.db ≡ s.db = ap (λ (p : Result Text × State W). p.1.db) (sym hashed) in
      let after : s2.db ≡ s'.db =
        sym (issue_tokens-db user s2) ∙ ap (λ (p : Result AuthResult × State W). p.1.db) issued in
      (
        user,
        subst (λ (d : Db). AddsUser (canonical_email svc email) name user d s'.db) before
            (subst (λ (d : Db). AddsUser (canonical_email svc email) name user s1.db d) after adds),
        issue_tokens-user svc user r s2 s' issued,
      )

  -- Where the hash is made and the server answers, a Signup that fits the columns with an address
  -- that somebody has is answered with the error for a taken address.
  pub signup_taken :
      (email password name hash : Text) (s s1 : State W)
      → hash_password svc.bcrypt password s ≡ (ok hash, s1)
      → (svc.users.statement s1.world).0.delivery ≡ delivered
      → user_fits (
          new_user
            (canonical_email svc email)
            hash
            name
            (codes "user")
            (svc.users.statement s1.world).0)
        ≡ true
      → any (λ (u : User). text_eq u.email (canonical_email svc email)) s1.db.users ≡ true
      → (signup svc email password name s).0 ≡ err (sentinel email_taken)
  unfolding signup errors_is
  signup_taken email password name hash s s1 hashed done fits taken =
      ground
        (arith, create-duplicate svc.users (canonical_email svc email) hash name s1 done fits taken)
