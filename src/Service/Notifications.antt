-- ===== src/Service/Notifications.antt =====
-- internal/service/notification.go
use pulse_notify.Prelude.{
  ℕ, ℤ, pos, leb_ℤ, ltb_ℤ, Option, none, some, List, [], ◌∷◌, ◌++◌, map, any, if◌then◌else◌, Text,
  codes, text_eq, trim_space, to_lower, signed_decimal,
}
use pulse_notify.Errors.{Error, other, wrapped, ok, err}
use pulse_notify.Model.{
  Uuid, Instant, Duration, Notification, NotificationResponse, NotificationEvent,
  notification_to_response,
}
use pulse_notify.External.{Postgres, Redis, UuidPackage, Codec, Clock, NotificationProducer}
use pulse_notify.State.{State, M, ◌>>=◌, ◌>>◌, pure, throw, on_error, call, call_value}
use pulse_notify.Repository.Notifications
use pulse_notify.Cache.{get_json, set_json, delete}

abbrev pub allowed_channels : List Text
allowed_channels = codes "email" ∷ codes "sms" ∷ codes "push" ∷ []

-- The service's fields, and the packages that its methods call; `fold` is that of `to_lower`. Its
-- logger is never called.
pub record NotificationService (W : Type 0) : Type 0 where
  pub repo : Postgres W
  pub producer : NotificationProducer W
  pub cache : Option (Redis W)
  pub uuid : UuidPackage
  pub clock : Clock W
  pub list_codec : Codec (List NotificationResponse)
  pub fold : ℕ → ℕ

unfoldable pub normalize_limit : ℤ → ℤ
normalize_limit limit =
    if leb_ℤ limit (pos 0) then pos 20 else if ltb_ℤ (pos 100) limit then pos 100 else limit

-- channel = strings.ToLower(strings.TrimSpace(channel))
abbrev pub canonical : (ℕ → ℕ) → Text → Text
canonical fold channel = to_lower fold (trim_space channel)

-- The text leaves out the channel that the code quotes in it.
abbrev pub unsupported_channel : Error
unsupported_channel = other (codes "unsupported channel: must be one of email, sms, push")

abbrev pub event_of : UuidPackage → Notification → Instant → NotificationEvent
event_of uuid n now = record {
  notification_id = uuid.to_text n.id;
  user_id = uuid.to_text n.user_id;
  channel = n.channel;
  recipient = n.recipient;
  subject = n.subject;
  body = n.body;
  enqueued_at = now;
}

-- fmt.Sprintf("notif:list:%s:%d", userID.String(), limit)
abbrev pub list_key : UuidPackage → Uuid → ℤ → Text
list_key uuid user_id limit =
    codes "notif:list:" ++ (uuid.to_text user_id ++ (codes ":" ++ signed_decimal limit))

-- The limits whose lists invalidateUserCache deletes.
abbrev pub known_limits : List ℤ
known_limits = pos 20 ∷ pos 50 ∷ pos 100 ∷ []

-- toResponses
abbrev pub to_responses : UuidPackage → List Notification → List NotificationResponse
to_responses uuid = map (notification_to_response uuid.to_text)

-- 15*time.Second
abbrev pub list_ttl : Duration
list_ttl = pos 15000000000

module _ {W : Type 0} (svc : NotificationService W) where
  pub delete_lists : Redis W → Uuid → List ℤ → State W → State W
  delete_lists c user_id [] s = s
  delete_lists c user_id (limit ∷ limits) s =
      delete_lists c user_id limits (delete c (list_key svc.uuid user_id limit ∷ []) s).1

  pub invalidate_with : Option (Redis W) → Uuid → State W → State W
  invalidate_with none user_id s = s
  invalidate_with (some c) user_id s = delete_lists c user_id known_limits s

  -- invalidateUserCache
  unfoldable pub invalidate_user_cache : Uuid → State W → State W
  unfolding invalidate_with delete_lists
  invalidate_user_cache user_id s = invalidate_with svc.cache user_id s

  -- The part of Enqueue after the row is stored: the event, the cached lists, the answer.
  unfoldable pub announce : Uuid → Notification → M W NotificationResponse
  announce user_id n = do
    now ← call_value svc.clock
    on_error (wrapped (codes "publish notification event"))
        (call (svc.producer (event_of svc.uuid n now)))
    λ s. (ok (notification_to_response svc.uuid.to_text n), invalidate_user_cache user_id s)

  -- The part of Enqueue after the channel's check.
  unfoldable pub enqueue_checked : Uuid → Text → Text → Text → Text → M W NotificationResponse
  unfolding announce
  enqueue_checked user_id channel recipient subject body =
      Notifications.create svc.repo user_id channel recipient subject body >>= announce user_id

  -- (s *NotificationService) Enqueue
  unfoldable pub enqueue : Uuid → Text → Text → Text → Text → M W NotificationResponse
  unfolding enqueue_checked
  enqueue user_id channel recipient subject body =
      let canonical_channel = canonical svc.fold channel in
      if any (text_eq canonical_channel) allowed_channels
      then enqueue_checked user_id canonical_channel recipient subject body
      else throw unsupported_channel

  -- (s *NotificationService) Get
  unfoldable pub get : Uuid → M W NotificationResponse
  get id = do
    n ← Notifications.find_by_id svc.repo id
    pure (notification_to_response svc.uuid.to_text n)

  -- The cached list, where there is a cache, it answers, and it holds one.
  abbrev pub cached : Text → M W (Option (List NotificationResponse))
  cached key s = elim svc.cache [
    | none ↦ (ok none, s)
    | some c ↦
        let (r, s1) = get_json c svc.list_codec key s in
        elim r [ ok found ↦ (ok found, s1) | err e ↦ (ok none, s1) ]
  ]

  abbrev pub store : Text → List NotificationResponse → State W → State W
  store key items s = elim svc.cache [
    | none ↦ s
    | some c ↦ (set_json c svc.list_codec key items list_ttl s).1
  ]

  abbrev pub or_load :
      Option (List NotificationResponse)
      → M W (List NotificationResponse)
      → M W (List NotificationResponse)
  or_load (some items) load = pure items
  or_load none load = load

  -- The part of ListForUser after a miss.
  unfoldable pub load_list : Text → Uuid → ℤ → M W (List NotificationResponse)
  load_list key user_id limit = do
    items ← Notifications.list_by_user svc.repo user_id limit
    let resp = to_responses svc.uuid items
    λ s. (ok resp, store key resp s)

  -- (s *NotificationService) ListForUser
  unfoldable pub list_for_user : Uuid → ℤ → M W (List NotificationResponse)
  unfolding load_list
  list_for_user user_id raw_limit =
      let limit = normalize_limit raw_limit in
      let key = list_key svc.uuid user_id limit in
      cached key >>= λ hit. or_load hit (load_list key user_id limit)

  -- (s *NotificationService) ListAll
  unfoldable pub list_all : ℤ → M W (List NotificationResponse)
  list_all raw_limit = do
    items ← Notifications.list_all svc.repo (normalize_limit raw_limit)
    pure (to_responses svc.uuid items)
