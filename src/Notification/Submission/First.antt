-- ===== src/Notification/Submission/First.antt =====
-- The first submission with a key, and one that follows it with the same key.
use relays.Notification.Delivery.{on_notifications_lem}
use relays.Core.Triple.{bind_ok}
use relays.Table.Laws.{insert_returning_ok, update_where-append_new, find_first-append_new}
use relays.Core.Idempotency.{
  IdempotencyState, completed_key, processing_key, insert_idem_keys, complete_idempotency,
  IdempotencyState,
}
use relays.Notification.Queries.{
  new_notification, notification_check, has_id, create_notification, same_notification,
}
use relays.Notification.Submission.{
  Submit, IdempotencyKey, resolve_recipient, submit_notification, channel_of, submit_inserted,
  http_method, submit_new, payload_of, notifications_path, complete_new, metadata_of, insert_new,
  insert_key, on_idempotency_keys, on_notifications, hash_mismatch, String, none,
}
use relays.Notification.Model.{
  NotificationRequest, Notification, Database, EmailNotificationProviders, NotificationChannel,
  email_request, NotificationState, email_payload, sms_request, Payload, sms_payload,
  webhook_request, Metadata, webhook_payload,
}
use relays.Prelude.{
  ◌+◌, ◌*◌, String, ◌≡◌, refl, sym, ap, subst, ◌∙◌, true, false, none, some, [], ◌∷◌, ◌++◌, arith,
  str_eq, Digest, ◌==◌, if◌then◌else◌, ==_refl,
}
use relays.Core.Result.{ok, err, pure}
use relays.Table.{find_first, exists_row}
use relays.Notification.Submission.Replay.{
  call_key, on_idempotency_keys_lem, submit_replay, replayed,
}

-- The part of a row that the request gives, by its channel.
pub record Requested : Type 0 where
  pub channel : NotificationChannel
  pub recipient : String
  pub payload : Payload
  pub metadata : Metadata

abbrev pub requested : NotificationRequest → Requested
requested (email_request p m) = record {
  channel = NotificationChannel.email;
  recipient = p.to;
  payload = email_payload p;
  metadata = m;
}
requested (sms_request p m) = record {
  channel = NotificationChannel.sms;
  recipient = p.to;
  payload = sms_payload p;
  metadata = m;
}
requested (webhook_request p m) = record {
  channel = NotificationChannel.webhook;
  recipient = p.url;
  payload = webhook_payload p;
  metadata = m;
}

-- The rows that a submission adds, column by column.
abbrev pub submitted_row : Submit → Notification
submitted_row call =
    let asked = requested call.request in
    record {
      id = call.notification_id;
      workspace_id = call.workspace_id;
      api_key_id = call.api_key_id;
      channel = asked.channel;
      provider = EmailNotificationProviders.mailrelay;
      recipient = asked.recipient;
      payload = asked.payload;
      metadata = some asked.metadata;
      state = NotificationState.created;
      attempt_count = 0;
      max_attempts = 5;
      next_retry_at = none;
      queued_at = none;
      last_attempt_at = none;
      last_error = none;
      sent_at = none;
      created_at = call.now;
      updated_at = call.now;
    }

abbrev pub submitted_key : Digest → Submit → IdempotencyKey
submitted_key hash call = record {
  id = call.serial;
  idempotency_key = call.idempotency_key;
  request_hash = hash;
  api_key_id = call.api_key_id;
  method = "POST";
  path = "/v1/notifications";
  notification_id = some call.notification_id;
  status = IdempotencyState.completed;
  created_at = call.now;
  updated_at = call.now;
  expires_at = call.now + 24 * 60 * 60;
}

abbrev pub add_submission : Digest → Submit → Database → Database
add_submission hash call db = record db {
  notifications = db.notifications ++ submitted_row call ∷ [];
  idempotency_keys = db.idempotency_keys ++ submitted_key hash call ∷ [];
}

requested_lem :
    (r : NotificationRequest)
    → requested r ≡ record {
      channel = channel_of r;
      recipient = resolve_recipient r;
      payload = payload_of r;
      metadata = metadata_of r;
    }
unfolding channel_of resolve_recipient payload_of metadata_of
requested_lem (email_request p m) = refl
requested_lem (sms_request p m) = refl
requested_lem (webhook_request p m) = refl

-- The row as the INSERT makes it of a request.
abbrev inserted : Submit → Requested → Notification
inserted call asked =
    new_notification call.notification_id call.now call.workspace_id call.api_key_id asked.channel
      EmailNotificationProviders.mailrelay asked.recipient asked.payload (some asked.metadata)

abbrev pub created_row : Submit → Notification
created_row call =
    new_notification call.notification_id call.now call.workspace_id call.api_key_id
      (channel_of call.request) EmailNotificationProviders.mailrelay
      (resolve_recipient call.request) (payload_of call.request) (some (metadata_of call.request))

submitted_row_lem : (call : Submit) → submitted_row call ≡ created_row call
submitted_row_lem call = ap (inserted call) (requested_lem call.request)

-- What the request and the drawn values of a first submission meet: a recipient, which the payload
-- schemas require, an unused key, and a UUID and a serial number that no row has.
pub record IsFirst (call : Submit) (db : Database) : Type 0 where
  pub recipient : str_eq (requested call.request).recipient "" ≡ false
  pub key_unused : exists_row (call_key call) db.idempotency_keys ≡ false
  pub id_unused : exists_row (has_id call.notification_id) db.notifications ≡ false
  pub serial_unused : exists_row (λ r. r.id == call.serial) db.idempotency_keys ≡ false

module _ (canonical_hash : NotificationRequest → Digest) (call : Submit) (db : Database)
    (first : IsFirst call db) where
  abbrev hash : Digest
  hash = canonical_hash call.request

  new_row_check : notification_check (submitted_row call) ≡ true
  unfolding notification_check
  new_row_check = ground (arith, first.recipient)

  abbrev fresh_key : IdempotencyKey
  fresh_key =
      processing_key call.serial call.now call.idempotency_key hash call.api_key_id http_method
        notifications_path

  insert_key_new :
      insert_key canonical_hash call db.idempotency_keys
      ≡ (ok (some fresh_key), db.idempotency_keys ++ fresh_key ∷ [])
  unfolding insert_key insert_idem_keys
  insert_key_new = rw first.key_unused refl

  insert_new_new :
      insert_new canonical_hash call db.notifications
      ≡ (ok (submitted_row call), db.notifications ++ submitted_row call ∷ [])
  unfolding insert_new create_notification
  insert_new_new =
      insert_returning_ok notification_check same_notification (created_row call) db.notifications
        (subst (λ row. notification_check row ≡ true) (submitted_row_lem call) new_row_check)
        first.id_unused
      ∙ ap (λ row. (ok row, db.notifications ++ row ∷ [])) (sym (submitted_row_lem call))

  complete_new_key :
      complete_idempotency call.serial call.notification_id (db.idempotency_keys ++ fresh_key ∷ [])
      ≡ (ok tt, db.idempotency_keys ++ submitted_key hash call ∷ [])
  unfolding complete_idempotency
  complete_new_key =
      rw
        (update_where-append_new (λ r. r.id == call.serial) (completed_key call.notification_id)
          db.idempotency_keys fresh_key first.serial_unused (==_refl call.serial))
        refl

  -- A first submission succeeds: it adds one notification in state `created` and one key, completed
  -- with that notification.
  pub submit_first :
      submit_notification canonical_hash call db
      ≡ (ok (submitted_row call, true), add_submission hash call db)
  unfolding submit_notification submit_inserted submit_new complete_new
  submit_first =
      let complete = complete_idempotency call.serial call.notification_id in
      bind_ok (on_idempotency_keys (insert_key canonical_hash call))
        (submit_inserted canonical_hash call)
        (on_idempotency_keys_lem (insert_key canonical_hash call) db insert_key_new)
      ∙ bind_ok (on_notifications (insert_new canonical_hash call))
          (complete_new canonical_hash fresh_key)
          (on_notifications_lem (insert_new canonical_hash call) _ insert_new_new)
      ∙ bind_ok (on_idempotency_keys complete) (λ _. pure (submitted_row call, true))
          (on_idempotency_keys_lem complete _ complete_new_key)

call_key-submitted_key : (h : Digest) (call : Submit) → call_key call (submitted_key h call) ≡ true
call_key-submitted_key h call = ground arith

-- After a first submission, a second one by the same API key with the same idempotency key and a
-- request of the same hash gives back the notification of the first, and adds nothing; one with
-- another hash is refused as a conflict, and adds nothing.
pub submit_twice :
    (canonical_hash : NotificationRequest → Digest) (call again : Submit) (db : Database)
    → IsFirst call db
    → again.idempotency_key ≡ call.idempotency_key
    → again.api_key_id ≡ call.api_key_id
    → let db' = (submit_notification canonical_hash call db).1 in
      submit_notification canonical_hash again db' ≡ (
        (if canonical_hash call.request == canonical_hash again.request
            then ok (submitted_row call, false)
            else err hash_mismatch),
        db',
      )
submit_twice canonical_hash call again db first same_key same_api_key =
    let db' = add_submission (canonical_hash call.request) call db in
    let key = submitted_key (canonical_hash call.request) call in
    let found : find_first (call_key again) db'.idempotency_keys ≡ some key =
      rw (same_key, same_api_key)
        (find_first-append_new (call_key call) db.idempotency_keys key first.key_unused
          (call_key-submitted_key (canonical_hash call.request) call)) in
    let row : find_first (has_id call.notification_id) db'.notifications
        ≡ some (submitted_row call) =
      find_first-append_new (has_id call.notification_id) db.notifications (submitted_row call)
        first.id_unused (==_refl call.notification_id) in
    rw (submit_first canonical_hash call db first) (
      submit_replay canonical_hash again db' key found
      ∙ ap (λ o. (replayed (canonical_hash again.request) key o, db')) row)
