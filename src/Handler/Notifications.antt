-- ===== src/Handler/Notifications.antt =====
-- internal/handler/notification.go
use pulse_notify.Prelude.{none, some, List, if◌then◌else◌, length, Text, codes, text_eq}
use pulse_notify.Errors.{errors_is, message, notification_not_found, Result, ok, err}
use pulse_notify.Model.{Uuid, NotificationResponse}
use pulse_notify.Http.{
  GinContext, HandlerFunc, Bind, respond, error_body, notification_body, list_body,
}
use pulse_notify.Middleware.Access.{user_id_from_context, unauthorized}
use pulse_notify.Service.Notifications
use pulse_notify.Service.Notifications.{NotificationService, enqueue, list_for_user}
use pulse_notify.Handler.Limits.{parse_limit}

-- createNotificationRequest
pub record CreateNotificationRequest : Type 0 where
  pub channel : Text
  pub recipient : Text
  pub subject : Text
  pub body : Text

-- What List and ListAll write.
abbrev pub list_response : Result (List NotificationResponse) → GinContext → GinContext
list_response (ok items) = respond 200 (list_body items (length items))
list_response (err e) = respond 500 (error_body (codes "could not list notifications"))

abbrev pub not_found : GinContext → GinContext
not_found = respond 404 (error_body (codes "notification not found"))

-- What Get writes when the service has answered a caller.
abbrev pub get_response :
    (Uuid → Text) → Uuid → Result NotificationResponse → GinContext → GinContext
get_response to_text user_id (err e) c =
    if errors_is e notification_not_found
    then not_found c
    else respond 500 (error_body (codes "could not fetch notification")) c
get_response to_text user_id (ok resp) c =
    if text_eq resp.user_id (to_text user_id)
    then respond 200 (notification_body resp) c
    else not_found c

abbrev pub create_response : Result NotificationResponse → GinContext → GinContext
create_response (ok resp) = respond 202 (notification_body resp)
create_response (err e) = respond 500 (error_body (codes "could not enqueue notification"))

module _ {W : Type 0} (svc : NotificationService W) (bind : Bind CreateNotificationRequest) where
  -- (h *NotificationHandler) Create
  unfoldable pub create : HandlerFunc W
  unfolding enqueue
  create c s = elim (user_id_from_context c) [
    | none ↦ (unauthorized (codes "unauthorized") c, s)
    | some user_id ↦ elim (bind c.payload) [
      | err e ↦ (respond 400 (error_body (message e)) c, s)
      | ok req ↦
          let (r, s1) = enqueue svc user_id req.channel req.recipient req.subject req.body s in
          (create_response r c, s1)
    ]
  ]

module _ {W : Type 0} (svc : NotificationService W) where
  -- (h *NotificationHandler) List
  unfoldable pub list : HandlerFunc W
  unfolding list_for_user parse_limit
  list c s = elim (user_id_from_context c) [
    | none ↦ (unauthorized (codes "unauthorized") c, s)
    | some user_id ↦
        let (r, s1) = list_for_user svc user_id (parse_limit c.query_limit) s in
        (list_response r c, s1)
  ]

  -- (h *NotificationHandler) Get
  unfoldable pub get : HandlerFunc W
  unfolding Notifications.get
  get c s = elim (user_id_from_context c) [
    | none ↦ (unauthorized (codes "unauthorized") c, s)
    | some user_id ↦ elim (svc.uuid.parse c.param_id) [
      | err e ↦ (respond 400 (error_body (codes "invalid notification id")) c, s)
      | ok id ↦
          let (r, s1) = Notifications.get svc id s in
          (get_response svc.uuid.to_text user_id r c, s1)
    ]
  ]

  -- (h *NotificationHandler) ListAll
  unfoldable pub list_all : HandlerFunc W
  unfolding Notifications.list_all parse_limit
  list_all c s =
      let (r, s1) = Notifications.list_all svc (parse_limit c.query_limit) s in
      (list_response r c, s1)
