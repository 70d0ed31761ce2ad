-- ===== src/Notification/Model.antt =====
-- The data of app/modules/notifications: constants.py, channels/*/schemas.py, schemas/*.py,
-- providers/email/result.py, and the rows of the tables notifications and delivery_attempts
-- (app/infra/db/schemas).
use relays.Core.Idempotency.{IdempotencyKey}
use relays.Prelude.{ℕ, String, Uuid, Time, Option, List}

pub data NotificationChannel : Type 0 where
  email sms webhook : NotificationChannel

pub data NotificationState : Type 0 where
  created queued processing sent failed : NotificationState

pub data EmailNotificationProviders : Type 0 where
  mailrelay fake : EmailNotificationProviders

pub data DeliveryStatus : Type 0 where
  success temporary_failure permanent_failure : DeliveryStatus

-- The payloads of the three channels; an address, a number and a URL are texts.
pub record EmailPayload : Type 0 where
  pub to : String
  pub cc : Option (List String)
  pub bcc : Option (List String)
  pub subject : String
  pub html_body : String

pub record SmsPayload : Type 0 where
  pub to : String
  pub message : String

-- The body of a webhook is JSON that the code only passes on.
pub record WebhookPayload : Type 0 where
  pub url : String
  pub body : String

pub data Payload : Type 0 where
  email_payload : EmailPayload → Payload
  sms_payload : SmsPayload → Payload
  webhook_payload : WebhookPayload → Payload

-- The metadata of a request. The code reads one entry of it, `metadata["testing"]["sequence"]`;
-- `rest` stands for the other entries.
pub record Testing : Type 0 where
  pub sequence : Option (List String)

pub record Metadata : Type 0 where
  pub testing : Option Testing
  pub rest : String

-- `NotificationRequestBody`, the union of the three request bodies by their `channel`.
pub data NotificationRequest : Type 0 where
  email_request : EmailPayload → Metadata → NotificationRequest
  sms_request : SmsPayload → Metadata → NotificationRequest
  webhook_request : WebhookPayload → Metadata → NotificationRequest

-- A message identifier as the providers write it: `fake-n`, or the number that MailRelay gave.
pub data MessageId : Type 0 where
  fake_id : ℕ → MessageId
  mailrelay_id : ℕ → MessageId

-- `provider_error_code`: a label, or an HTTP status as text.
pub data ProviderErrorCode : Type 0 where
  label : String → ProviderErrorCode
  status_text : ℕ → ProviderErrorCode

pub record MailRelaySendResponse : Type 0 where
  pub id : ℕ
  pub created_at : Time
  pub email : String
  pub subscriber_id : Option ℕ

pub data RawProviderResponse : Type 0 where
  fake_response : (attempt : ℕ) → (outcome : String) → RawProviderResponse
  mailrelay_response : MailRelaySendResponse → RawProviderResponse

pub record ProviderResult : Type 0 where
  pub status : DeliveryStatus
  pub provider : EmailNotificationProviders
  pub provider_message_id : Option MessageId
  pub provider_error_code : Option ProviderErrorCode
  pub error_message : Option String
  pub raw_provider_response : Option RawProviderResponse

pub record Notification : Type 0 where
  pub id : Uuid
  pub workspace_id : Uuid
  pub api_key_id : Uuid
  pub channel : NotificationChannel
  pub provider : EmailNotificationProviders
  pub recipient : String
  pub payload : Payload
  pub metadata : Option Metadata
  pub state : NotificationState
  pub attempt_count : ℕ
  pub max_attempts : ℕ
  pub next_retry_at : Option Time
  pub queued_at : Option Time
  pub last_attempt_at : Option Time
  pub last_error : Option String
  pub sent_at : Option Time
  pub created_at : Time
  pub updated_at : Time

pub record DeliveryAttempt : Type 0 where
  pub id : Uuid
  pub notification_id : Uuid
  pub attempt_number : ℕ
  pub status : DeliveryStatus
  pub provider : EmailNotificationProviders
  pub error_message : Option String
  pub provider_error_code : Option ProviderErrorCode
  pub provider_message_id : Option MessageId
  pub raw_provider_response : Option RawProviderResponse
  pub created_at : Time

-- The tables that the notification code reads and writes.
pub record Database : Type 0 where
  pub notifications : List Notification
  pub delivery_attempts : List DeliveryAttempt
  pub idempotency_keys : List IdempotencyKey
