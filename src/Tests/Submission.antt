-- ===== src/Tests/Submission.antt =====
-- Submissions on concrete data.
use relays.Notification.LostEnqueue.{retry_after_enqueue_failure}
use relays.Core.Result.{ok, err}
use relays.Notification.Submission.Replay.{call_key, replayed, find_notification, submit_replay}
use relays.Notification.Routes.{System, create_notify, enqueue_failed, answer}
use relays.Notification.Submission.First.{
  add_submission, submitted_key, IsFirst, submitted_row, submit_first, submit_twice,
}
use relays.Table.{find_first, exists_row}
use relays.Core.Idempotency.{IdempotencyKey}
use relays.Notification.Submission.{resolve_recipient, submit_notification}
use relays.Prelude.{◌≡◌, refl, true, false, some, []}
use relays.Tests.Data.{first_call, channel_hash, empty_db, second_call, empty_system}

first_call-IsFirst : IsFirst first_call empty_db
unfolding resolve_recipient exists_row
first_call-IsFirst = record {
  recipient = refl;
  key_unused = refl;
  id_unused = refl;
  serial_unused = refl;
}

submit_first_example :
    submit_notification channel_hash first_call empty_db
    ≡ (ok (submitted_row first_call, true), add_submission 1 first_call empty_db)
submit_first_example = submit_first channel_hash first_call empty_db first_call-IsFirst

submit_twice_example :
    let db' = (submit_notification channel_hash first_call empty_db).1 in
    submit_notification channel_hash second_call db' ≡ (ok (submitted_row first_call, false), db')
submit_twice_example =
    submit_twice channel_hash first_call second_call empty_db first_call-IsFirst refl refl

abbrev stored_key : IdempotencyKey
stored_key = submitted_key 1 first_call

find_key :
    find_first (call_key second_call) (add_submission 1 first_call empty_db).idempotency_keys
    ≡ some stored_key
unfolding find_first
find_key = refl

submit_replay_example :
    let db' = add_submission 1 first_call empty_db in
    submit_notification channel_hash second_call db'
    ≡ (replayed 1 stored_key (find_notification db' (some 70)), db')
submit_replay_example =
    submit_replay channel_hash second_call (add_submission 1 first_call empty_db) stored_key
      find_key

retry_after_enqueue_failure_example :
    let lost : System = record { db = add_submission 1 first_call empty_db; queue = [] } in
    (create_notify channel_hash false 101 first_call empty_system ≡ (err enqueue_failed, lost))
    × (create_notify channel_hash true 161 second_call lost
        ≡ (ok (answer false (submitted_row first_call)), lost))
retry_after_enqueue_failure_example =
    retry_after_enqueue_failure channel_hash first_call second_call 101 161 empty_system
      first_call-IsFirst refl refl refl
