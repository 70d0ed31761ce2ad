-- ===== src/Notification/Submission.antt =====
-- app/modules/notifications/workflows/notification_submission.py, and the routes of
-- app/modules/notifications/api/v1/routes.py that stand on it. The hash of a request
-- (app/core/hashing.py over the JSON of the body) is a parameter.
pub mod Replay
pub mod First
use relays.Prelude.{
  ℕ, String, Uuid, Digest, Time, Bool, true, false, not, none, some, List, ◌==◌, Option,
}
use relays.Core.ErrorCode.{ErrorCode}
use relays.Core.Result.{Action, Exception, api_exception, pure, raise_if, or_raise, ◌>>=◌, ◌>>◌}
use relays.Core.Idempotency.{IdempotencyKey, insert_idem_keys, get_idem_keys, complete_idempotency}
use relays.Notification.Model.{
  NotificationRequest, email_request, sms_request, webhook_request, NotificationChannel,
  EmailNotificationProviders, Payload, email_payload, sms_payload, webhook_payload, Metadata,
  Notification, Database,
}
use relays.Notification.Queries.{create_notification, get_notification}
use relays.Notification.Delivery.{on_notifications}

unfoldable pub on_idempotency_keys :
    {A : Type 0} → Action (List IdempotencyKey) A → Action Database A
on_idempotency_keys m db =
    let (r, t) = m db.idempotency_keys in (r, record db { idempotency_keys = t })

abbrev pub http_method : String
http_method = "POST"

abbrev pub notifications_path : String
notifications_path = "/v1/notifications"

unfoldable pub resolve_recipient : NotificationRequest → String
resolve_recipient (email_request payload metadata) = payload.to
resolve_recipient (sms_request payload metadata) = payload.to
resolve_recipient (webhook_request payload metadata) = payload.url

unfoldable pub channel_of : NotificationRequest → NotificationChannel
channel_of (email_request payload metadata) = NotificationChannel.email
channel_of (sms_request payload metadata) = NotificationChannel.sms
channel_of (webhook_request payload metadata) = NotificationChannel.webhook

unfoldable pub payload_of : NotificationRequest → Payload
payload_of (email_request payload metadata) = email_payload payload
payload_of (sms_request payload metadata) = sms_payload payload
payload_of (webhook_request payload metadata) = webhook_payload payload

unfoldable pub metadata_of : NotificationRequest → Metadata
metadata_of (email_request payload metadata) = metadata
metadata_of (sms_request payload metadata) = metadata
metadata_of (webhook_request payload metadata) = metadata

abbrev pub hash_mismatch : Exception
hash_mismatch =
    api_exception 409 ErrorCode.conflict
      "This Idempotency-Key has already been used with a different request payload. Use a new Idempotency-Key for different requests."

abbrev pub idempotency_failure : Exception
idempotency_failure =
    api_exception 500 ErrorCode.internal_error
      "Unable to process idempotent request due to an internal error. Please Try Again."

abbrev pub still_processing : Exception
still_processing =
    api_exception 404 ErrorCode.not_found
      "This request is still being processed. Retry the request with the same Idempotency-Key."

abbrev pub inconsistent_state : Exception
inconsistent_state =
    api_exception 500 ErrorCode.internal_error
      "The request could not be completed due to an internal inconsistency. Please Try Again."

-- One call: the drawn values, the caller, and the request.
pub record Submit : Type 0 where
  pub serial : ℕ
  pub notification_id : Uuid
  pub now : Time
  pub idempotency_key : Uuid
  pub workspace_id : Uuid
  pub api_key_id : Uuid
  pub request : NotificationRequest

module _ (canonical_hash : NotificationRequest → Digest) where
  -- The row of a new request, which its key is completed with.
  unfoldable pub complete_new :
      IdempotencyKey → Notification → Action Database (Notification × Bool)
  complete_new record_row notification =
      on_idempotency_keys (complete_idempotency record_row.id notification.id) >>= λ _.
      pure (notification, true)

  unfoldable pub insert_new : Submit → Action (List Notification) Notification
  insert_new s =
      create_notification s.notification_id s.now s.workspace_id s.api_key_id (channel_of s.request)
        EmailNotificationProviders.mailrelay (resolve_recipient s.request) (payload_of s.request)
        (some (metadata_of s.request))

  -- The branch of a new request.
  unfoldable pub submit_new : Submit → IdempotencyKey → Action Database (Notification × Bool)
  unfolding complete_new insert_new
  submit_new s record_row = on_notifications (insert_new s) >>= complete_new record_row

  -- The branches of a key that was used before.
  unfoldable pub submit_existing : Submit → Action Database (Notification × Bool)
  submit_existing s = do
    found ←
        on_idempotency_keys
          (get_idem_keys s.idempotency_key s.api_key_id http_method notifications_path)
    existing ← or_raise found idempotency_failure
    raise_if (not (existing.request_hash == canonical_hash s.request)) hash_mismatch
    notification_id ← or_raise existing.notification_id still_processing
    row ← on_notifications (get_notification notification_id)
    notification ← or_raise row inconsistent_state
    pure (notification, false)

  unfoldable pub submit_inserted :
      Submit → Option IdempotencyKey → Action Database (Notification × Bool)
  unfolding submit_new submit_existing
  submit_inserted s (some row) = submit_new s row
  submit_inserted s none = submit_existing s

  unfoldable pub insert_key : Submit → Action (List IdempotencyKey) (Option IdempotencyKey)
  insert_key s =
      insert_idem_keys s.serial s.now s.idempotency_key (canonical_hash s.request) s.api_key_id
        http_method notifications_path

  unfoldable pub submit_notification : Submit → Action Database (Notification × Bool)
  unfolding submit_inserted insert_key
  submit_notification s = on_idempotency_keys (insert_key s) >>= submit_inserted s
