-- ===== src/Tests/Data.antt =====
-- Concrete rows, requests and environments.
use relays.Notification.Queries.{queued_row, sent_row, new_notification, attempted_row}
use relays.Notification.Delivery.{Env}
use relays.Notification.Routes.{System}
use relays.Notification.Submission.{Submit}
use relays.Notification.Model.{
  EmailPayload, Metadata, NotificationRequest, Database, Notification, ProviderResult,
  email_request, DeliveryStatus, sms_request, EmailNotificationProviders, webhook_request,
  NotificationChannel, email_payload,
}
use relays.Prelude.{none, some, [], ◌∷◌, Digest}
use relays.Notification.RetryPolicy.{RetryConfig}

abbrev pub welcome : EmailPayload
welcome = record {
  to = "user@example.com";
  cc = none;
  bcc = none;
  subject = "Welcome";
  html_body = "<p>Hello</p>";
}

abbrev pub scripted_failures : Metadata
scripted_failures = record {
  testing = some (record { sequence = some ("temporary_failure" ∷ "success" ∷ []) });
  rest = "";
}

abbrev pub welcome_request : NotificationRequest
welcome_request = email_request welcome scripted_failures

-- A hash that tells the requests of the tests apart, by their channel.
abbrev pub channel_hash : NotificationRequest → Digest
channel_hash (email_request payload metadata) = 1
channel_hash (sms_request payload metadata) = 2
channel_hash (webhook_request payload metadata) = 3

abbrev pub first_call : Submit
first_call = record {
  serial = 1;
  notification_id = 70;
  now = 100;
  idempotency_key = 5;
  workspace_id = 8;
  api_key_id = 9;
  request = welcome_request;
}

abbrev pub second_call : Submit
second_call = record {
  serial = 2;
  notification_id = 71;
  now = 160;
  idempotency_key = 5;
  workspace_id = 8;
  api_key_id = 9;
  request = welcome_request;
}

abbrev pub empty_db : Database
empty_db = record { notifications = []; delivery_attempts = []; idempotency_keys = [] }

abbrev pub empty_system : System
empty_system = record { db = empty_db; queue = [] }

abbrev pub queued_notification : Notification
queued_notification = queued_row 110 (
    new_notification 70 100 8 9 NotificationChannel.email EmailNotificationProviders.fake
      "user@example.com" (email_payload welcome) (some scripted_failures))

abbrev pub queued_db : Database
queued_db = record {
  notifications = queued_notification ∷ [];
  delivery_attempts = [];
  idempotency_keys = [];
}

abbrev pub sent_notification : Notification
sent_notification = sent_row 150 (attempted_row 150 queued_notification)

abbrev pub sent_db : Database
sent_db = record {
  notifications = sent_notification ∷ [];
  delivery_attempts = [];
  idempotency_keys = [];
}

abbrev pub policy : RetryConfig
policy = record { initial_retry_delay_seconds = 30; max_retry_delay_seconds = 600 }

abbrev pub worker_env : Env
worker_env = record {
  config = policy;
  now = 200;
  clock = 201;
  draw = λ bound. bound;
  attempt_id = 900;
}

abbrev pub temporary : ProviderResult
temporary = record {
  status = DeliveryStatus.temporary_failure;
  provider = EmailNotificationProviders.fake;
  provider_message_id = none;
  provider_error_code = none;
  error_message = some "Simulated temporary failure.";
  raw_provider_response = none;
}
