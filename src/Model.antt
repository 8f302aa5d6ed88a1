-- ===== src/Model.antt =====
-- internal/model and internal/events/event.go: the stored rows, their public shapes, and the event
-- that goes through Kafka. A UUID is its 128-bit number and an instant its count of nanoseconds.
use pulse_notify.Prelude.{ℕ, ℤ, Option, Text, codes}

abbrev pub Uuid : Type 0
Uuid = ℕ

abbrev pub Instant : Type 0
Instant = ℕ

-- time.Duration, in nanoseconds
abbrev pub Duration : Type 0
Duration = ℤ

pub data NotificationStatus : Type 0 where
  pending sent failed : NotificationStatus

-- string(status)
abbrev pub status_text : NotificationStatus → Text
status_text pending = codes "pending"
status_text sent = codes "sent"
status_text failed = codes "failed"

pub record Notification : Type 0 where
  pub id : Uuid
  pub user_id : Uuid
  pub channel : Text
  pub recipient : Text
  pub subject : Text
  pub body : Text
  pub status : NotificationStatus
  pub attempts : ℤ
  pub last_error : Text
  pub created_at : Instant
  pub updated_at : Instant
  pub sent_at : Option Instant

pub record NotificationResponse : Type 0 where
  pub id : Text
  pub user_id : Text
  pub channel : Text
  pub recipient : Text
  pub subject : Text
  pub body : Text
  pub status : Text
  pub attempts : ℤ
  pub last_error : Text
  pub created_at : Instant
  pub sent_at : Option Instant

pub record User : Type 0 where
  pub id : Uuid
  pub email : Text
  pub password_hash : Text
  pub name : Text
  pub role : Text
  pub created_at : Instant
  pub updated_at : Instant

pub record UserResponse : Type 0 where
  pub id : Text
  pub email : Text
  pub name : Text
  pub role : Text
  pub created_at : Instant

pub record NotificationEvent : Type 0 where
  pub notification_id : Text
  pub user_id : Text
  pub channel : Text
  pub recipient : Text
  pub subject : Text
  pub body : Text
  pub enqueued_at : Instant

-- (n *Notification) ToResponse, with uuid.UUID.String as `uuid_string`
unfoldable pub notification_to_response : (Uuid → Text) → Notification → NotificationResponse
notification_to_response uuid_string n = record {
  id = uuid_string n.id;
  user_id = uuid_string n.user_id;
  channel = n.channel;
  recipient = n.recipient;
  subject = n.subject;
  body = n.body;
  status = status_text n.status;
  attempts = n.attempts;
  last_error = n.last_error;
  created_at = n.created_at;
  sent_at = n.sent_at;
}

-- (u *User) ToResponse
unfoldable pub user_to_response : (Uuid → Text) → User → UserResponse
user_to_response uuid_string u = record {
  id = uuid_string u.id;
  email = u.email;
  name = u.name;
  role = u.role;
  created_at = u.created_at;
}
