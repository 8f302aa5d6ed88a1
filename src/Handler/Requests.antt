-- ===== src/Handler/Requests.antt =====
-- The binding tags of the requests of internal/handler/auth.go and notification.go, as gin's
-- validator documents them: `required` refuses the empty text, `min` and `max` count characters.
use pulse_notify.Prelude.{
  ◌<◌, ◌≡◌, refl, ◌⊎◌, inl, inr, Bool, true, false, ◌&&◌, not, [], ◌∷◌, arith, any, leb, length,
  some, Text, codes, text_eq, text_eq_iff, trim_space, to_lower,
}
use pulse_notify.Errors.{Error, ok, err, errors_is, email_taken}
use pulse_notify.Model.{Uuid}
use pulse_notify.External.{Statement}
use pulse_notify.State.{State}
use pulse_notify.Database.{notification_fits}
use pulse_notify.Repository.Notifications.{new_notification}
use pulse_notify.Config.{byte_length}
use pulse_notify.Auth.{BcryptPackage, bcrypt_cost, hash_password}
use pulse_notify.Http.{GinContext, Bind, respond, error_body}
use pulse_notify.Service.Accounts.{AuthService, signup}
use pulse_notify.Service.Notifications.{NotificationService, enqueue, enqueue_checked}
use pulse_notify.Handler.Accounts.{SignupRequest, signup_handler, token_reply}
use pulse_notify.Handler.Notifications
use pulse_notify.Handler.Notifications.{CreateNotificationRequest, create_response}

abbrev pub is_given : Text → Bool
is_given s = not (text_eq s [])

-- The tags of createNotificationRequest.
unfoldable pub create_tags : CreateNotificationRequest → Bool
unfolding text_eq
create_tags req =
    is_given req.channel
    && any (text_eq req.channel) (codes "email" ∷ codes "sms" ∷ codes "push" ∷ [])
    && (is_given req.recipient && leb (length req.recipient) 255)
    && leb (length req.subject) 255
    && (is_given req.body && leb (length req.body) 4000)

-- The tags of signupRequest; `is_email` is the validator's test of an address.
unfoldable pub signup_tags : (Text → Bool) → SignupRequest → Bool
unfolding text_eq
signup_tags is_email req =
    is_given req.email
    && is_email req.email
    && (is_given req.password && leb 8 (length req.password) && leb (length req.password) 72)
    && (is_given req.name && leb 2 (length req.name) && leb (length req.name) 100)

-- ShouldBindJSON accepts only what the tags admit.
abbrev pub Binds : {A : Type 0} → (A → Bool) → Bind A → Type 0
Binds {A} tags bind = (payload : Text) (req : A) → bind payload ≡ ok req → tags req ≡ true

one_of_channels :
    (s : Text)
    → any (text_eq s) (codes "email" ∷ codes "sms" ∷ codes "push" ∷ []) ≡ true
    → (s ≡ codes "email") ⊎ ((s ≡ codes "sms") ⊎ (s ≡ codes "push"))
one_of_channels s h = ground (
  arith,
  text_eq_iff s (codes "email"),
  text_eq_iff s (codes "sms"),
  text_eq_iff s (codes "push"),
)

-- The tags' texts, for a request that they admit.
create_tags-widths :
    (req : CreateNotificationRequest)
    → create_tags req ≡ true
    → (any (text_eq req.channel) (codes "email" ∷ codes "sms" ∷ codes "push" ∷ []) ≡ true)
      × (leb (length req.recipient) 255 ≡ true)
      × (leb (length req.subject) 255 ≡ true)
unfolding create_tags
create_tags-widths req h = (ground arith, ground arith, ground arith)

module _ {W : Type 0} (svc : NotificationService W) (user_id : Uuid) where
  -- The service takes each of the three channels as it is.
  one_channel :
      (channel recipient subject body : Text)
      → (channel ≡ codes "email") ⊎ ((channel ≡ codes "sms") ⊎ (channel ≡ codes "push"))
      → (enqueue svc user_id channel recipient subject body
          ≡ enqueue_checked svc user_id channel recipient subject body)
        × (leb (length channel) 20 ≡ true)
  unfolding enqueue trim_space to_lower text_eq
  one_channel channel recipient subject body (inl e) = rw e (refl, refl)
  one_channel channel recipient subject body (inr (inl e)) = rw e (refl, refl)
  one_channel channel recipient subject body (inr (inr e)) = rw e (refl, refl)

  -- A request of a user that the binding tags admit passes the service's check of the channel, with
  -- the channel as it is, so Create answers what becomes of the row; and any row made of it fits
  -- the widths of the table's columns.
  pub create-admitted :
      (bind : Bind CreateNotificationRequest) (c : GinContext) (req : CreateNotificationRequest)
      (s : State W)
      → Binds create_tags bind
      → c.user_id ≡ some user_id
      → bind c.payload ≡ ok req
      → (let r = enqueue_checked svc user_id req.channel req.recipient req.subject req.body s in
          Notifications.create svc bind c s ≡ (create_response r.0 c, r.1))
        × ((st : Statement)
            → notification_fits
                (new_notification user_id req.channel req.recipient req.subject req.body st)
              ≡ true)
  unfolding Notifications.create
  create-admitted bind c req s tagged caller bound =
      let (one_of, recipient, subject) = create_tags-widths req (tagged c.payload req bound) in
      let (checked, width) =
        one_channel req.channel req.recipient req.subject req.body
          (one_of_channels req.channel one_of) in
      (ground arith, λ st. ground arith)

-- What bcrypt documents of a password above 72 bytes, whose error is none of the program's.
abbrev pub RefusesLong : {W : Type 0} → BcryptPackage W → Type 0
RefusesLong {W} bcrypt =
    (password : Text) (w : W)
    → 72 < byte_length password
    → (e : Error) × ((bcrypt.generate_from_password password bcrypt_cost w).0 ≡ err e)
      × (errors_is e email_taken ≡ false)

long_password-answer :
    {W : Type 0} (svc : AuthService W) (bind : Bind SignupRequest) (c : GinContext)
    (req : SignupRequest) (s : State W)
    → RefusesLong svc.bcrypt
    → bind c.payload ≡ ok req
    → 72 < byte_length req.password
    → ((signup_handler svc bind c s).0
        ≡ respond 500 (error_body (codes "could not create account")) c)
      × ((signup_handler svc bind c s).1.db ≡ s.db)
unfolding signup_handler signup hash_password token_reply
long_password-answer svc bind c req s limit bound long =
    let (e, refused, unknown) = limit req.password s.world long in (ground arith, ground arith)

-- A request with a password of 40 letters of two bytes each.
abbrev pub long_request : Text → SignupRequest
long_request address = record {
  email = address;
  password = codes "ääääääääääääääääääääääääääääääääääääääää";
  name = codes "Bo";
}

-- ShouldBindJSON accepts each request that the tags admit, in some text of it.
abbrev pub Accepts : {A : Type 0} → (A → Bool) → (A → Text) → Bind A → Type 0
Accepts {A} tags text_of bind = (req : A) → tags req ≡ true → bind (text_of req) ≡ ok req

long_request-admitted :
    (is_email : Text → Bool) (address : Text)
    → is_given address ≡ true
    → is_email address ≡ true
    → signup_tags is_email (long_request address) ≡ true
unfolding signup_tags text_eq
long_request-admitted is_email address given valid = rw (given, valid) refl

-- There is a request that the binding tags admit and that Signup answers with 500, with the tables as
-- they were, however the rest of the services behave: bcrypt refuses its password, which has at
-- most 72 characters and more than 72 bytes.
pub signup_handler-long_password :
    {W : Type 0} (svc : AuthService W) (is_email : Text → Bool) (address : Text)
    (text_of : SignupRequest → Text) (bind : Bind SignupRequest) (c : GinContext) (s : State W)
    → RefusesLong svc.bcrypt
    → is_given address ≡ true
    → is_email address ≡ true
    → Accepts (signup_tags is_email) text_of bind
    → (req : SignupRequest) × (signup_tags is_email req ≡ true)
      × (let sent = record c { payload = text_of req } in
          ((signup_handler svc bind sent s).0
            ≡ respond 500 (error_body (codes "could not create account")) sent)
          × ((signup_handler svc bind sent s).1.db ≡ s.db))
signup_handler-long_password svc is_email address text_of bind c s limit given valid accepts =
    let req = long_request address in
    let admitted = long_request-admitted is_email address given valid in
    (
      req,
      admitted,
      long_password-answer svc bind (record c { payload = text_of req }) req s limit
          (accepts req admitted) (omega arith),
    )
