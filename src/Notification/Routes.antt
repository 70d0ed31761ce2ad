-- ===== src/Notification/Routes.antt =====
-- app/modules/notifications/api/v1/routes.py and the answers of schemas/response.py, with the queue of
-- app/infra/queues/notification_queue.py. The broker is Celery's: it takes a message or refuses it.
use relays.Prelude.{
  ℕ, String, ◌≡◌, ap, Bool, true, false, Option, none, some, List, [], ◌∷◌, ◌++◌, Uuid, Digest,
  Time, if◌then◌else◌,
}
use relays.Core.ErrorCode.{ErrorCode}
use relays.Core.Result.{ok, err, Action, Exception, api_exception, transaction, Result}
use relays.Notification.Model.{
  NotificationRequest, NotificationChannel, NotificationState, Notification, Database,
}
use relays.Notification.Queries.{get_notification, mark_queued}
use relays.Notification.Submission.{Submit, submit_notification}

-- The messages that wait in the broker: a notification, and the queue named by its channel.
pub record System : Type 0 where
  pub db : Database
  pub queue : List (Uuid × NotificationChannel)

-- `NotificationQueue.enqueue`, when the broker takes the message.
unfoldable pub enqueue : Uuid → NotificationChannel → System → System
enqueue notification_id channel s = record s { queue = s.queue ++ (notification_id, channel) ∷ [] }

-- `PostNotificationResponseBody`; the header Location is the path of `notification_id`.
pub record PostNotificationResponse : Type 0 where
  pub status_code : ℕ
  pub location : Uuid
  pub notification_id : Uuid
  pub state : NotificationState
  pub created_at : Time

-- `build_post_response` gives no state, so the model's default stands.
unfoldable pub build_post_response : (status_code : ℕ) → Notification → PostNotificationResponse
build_post_response status_code row = record {
  status_code = status_code;
  location = row.id;
  notification_id = row.id;
  state = NotificationState.created;
  created_at = row.created_at;
}

abbrev pub enqueue_failed : Exception
enqueue_failed =
    api_exception 500 ErrorCode.internal_error
      "Failed to enqueue notification for processing. Please retry."

-- `mark_queued` after the message was taken; whatever it raises becomes `enqueue_failed`.
unfoldable pub queue_processing : (now : Time) → Notification → Action System (Unit {0})
queue_processing now notification s =
    let s' = enqueue notification.id notification.channel s in
    let (r, t) = mark_queued now notification.id s'.db.notifications in
    elim r [
      | err e ↦ (err enqueue_failed, s')
      | ok row ↦ (ok tt, record s' { db = record s'.db { notifications = t } })
    ]

unfoldable pub answer : Bool → Notification → PostNotificationResponse
unfolding build_post_response
answer is_new_request notification =
    build_post_response (if is_new_request then 201 else 200) notification

-- What follows the submission's transaction. `broker` says whether the broker takes the message, and
-- `queued_now` is the instant of `mark_queued`.
unfoldable pub after_submission :
    (broker : Bool)
    → (queued_now : Time) → Notification
    → (is_new_request : Bool) → Action System PostNotificationResponse
unfolding answer
after_submission broker queued_now notification false s = (ok (answer false notification), s)
after_submission false queued_now notification true s = (err enqueue_failed, s)
after_submission true queued_now notification true s =
    let (r, s') = queue_processing queued_now notification s in
    elim r [ err e ↦ (err e, s') | ok _ ↦ (ok (answer true notification), s') ]

module _ (canonical_hash : NotificationRequest → Digest) where
  unfoldable pub create_notify :
      (broker : Bool) → (queued_now : Time) → Submit → Action System PostNotificationResponse
  unfolding after_submission
  create_notify broker queued_now call s =
      let (r, db') = transaction (submit_notification canonical_hash call) s.db in
      elim r [
        | err e ↦ (err e, record s { db = db' })
        | ok result ↦ after_submission broker queued_now result.0 result.1 (record s { db = db' })
      ]

-- The route, given what its transaction gives.
module _ (canonical_hash : NotificationRequest → Digest) (broker : Bool) (queued_now : Time)
    (call : Submit) (s : System) {db' : Database} where
  pub create_notify_submitted :
      (n : Notification) (is_new : Bool)
      → transaction (submit_notification canonical_hash call) s.db ≡ (ok (n, is_new), db')
      → create_notify canonical_hash broker queued_now call s
        ≡ after_submission broker queued_now n is_new (record s { db = db' })
  unfolding create_notify
  create_notify_submitted n is_new e =
      ap
        (λ (x : Result (Notification × Bool) × Database).
          elim x.0 as (λ _. Result PostNotificationResponse × System) [
            | err e ↦ (err e, record s { db = x.1 })
            | ok result ↦
                after_submission broker queued_now result.0 result.1 (record s { db = x.1 })
          ])
        e

-- `GetNotificationResponseBody`
pub record GetNotificationResponse : Type 0 where
  pub notification_id : Uuid
  pub channel : NotificationChannel
  pub recipient : String
  pub state : NotificationState
  pub attempt_count : ℕ
  pub max_attempts : ℕ
  pub created_at : Time
  pub updated_at : Time
  pub queued_at : Option Time
  pub last_attempt_at : Option Time
  pub sent_at : Option Time
  pub last_error : Option String

unfoldable pub build_get_response : Notification → GetNotificationResponse
build_get_response row = record {
  notification_id = row.id;
  channel = row.channel;
  recipient = row.recipient;
  state = row.state;
  attempt_count = row.attempt_count;
  max_attempts = row.max_attempts;
  created_at = row.created_at;
  updated_at = row.updated_at;
  queued_at = row.queued_at;
  last_attempt_at = row.last_attempt_at;
  sent_at = row.sent_at;
  last_error = row.last_error;
}

abbrev pub notification_not_found : Exception
notification_not_found =
    api_exception 404 ErrorCode.not_found
      "Notification not found. Verify the notification_id and try again."

-- The route is told the caller's workspace by the guard.
unfoldable pub get_notify :
    (workspace_id : Uuid) → (notification_id : Uuid) → Action Database GetNotificationResponse
unfolding build_get_response
get_notify workspace_id notification_id db =
    let (r, _) = get_notification notification_id db.notifications in
    elim r [
      | err e ↦ (err e, db)
      | ok found ↦ elim found [
        | none ↦ (err notification_not_found, db)
        | some row ↦ (ok (build_get_response row), db)
      ]
    ]
