-- ===== src/Notification/LostEnqueue.antt =====
-- A submission whose message the broker refuses.
use relays.Core.Triple.{transaction_ok}
use relays.Notification.Submission.{Submit, submit_notification, hash_mismatch}
use relays.Notification.Model.{NotificationRequest, Notification, Database}
use relays.Prelude.{
  ◌≡◌, ap, subst, ◌∙◌, Bool, true, false, arith, Digest, Time, ◌==◌, if◌then◌else◌,
}
use relays.Core.Result.{ok, err, Result}
use relays.Notification.Routes.{
  System, create_notify, enqueue_failed, after_submission, answer, create_notify_submitted,
}
use relays.Notification.Submission.First.{
  IsFirst, submit_first, submit_twice, submitted_row, add_submission,
}

-- When the broker refuses the message of a first submission, the client is told to retry, and the
-- notification stays in the table in state `created`, with nothing queued for it. A retry with the
-- same key and request is answered with status 200 and still queues nothing, although the broker
-- would take the message now: the notification is never delivered.
pub retry_after_enqueue_failure :
    (canonical_hash : NotificationRequest → Digest) (call again : Submit) (now later : Time)
    (s : System)
    → IsFirst call s.db
    → again.idempotency_key ≡ call.idempotency_key
    → again.api_key_id ≡ call.api_key_id
    → canonical_hash again.request ≡ canonical_hash call.request
    → let lost : System = record s {
      db = add_submission (canonical_hash call.request) call s.db;
    } in
      (create_notify canonical_hash false now call s ≡ (err enqueue_failed, lost))
      × (create_notify canonical_hash true later again lost
          ≡ (ok (answer false (submitted_row call)), lost))
unfolding after_submission
retry_after_enqueue_failure canonical_hash call again now later s first same_key same_api_key
      same_hash =
    let db' = add_submission (canonical_hash call.request) call s.db in
    let lost : System = record s { db = db' } in
    let row = submitted_row call in
    let done = submit_first canonical_hash call s.db first in
    let hit : (canonical_hash call.request == canonical_hash again.request) ≡ true = ground arith in
    let repeated : submit_notification canonical_hash again db' ≡ (ok (row, false), db') =
      subst
        (λ (x : Result (Notification × Bool) × Database).
          submit_notification canonical_hash again x.1 ≡ (
            (if canonical_hash call.request == canonical_hash again.request
                then ok (row, false)
                else err hash_mismatch),
            x.1,
          ))
        done (submit_twice canonical_hash call again s.db first same_key same_api_key)
      ∙ ap (λ (b : Bool). ((if b then ok (row, false) else err hash_mismatch), db')) hit in
    (
      create_notify_submitted canonical_hash false now call s row true
          (transaction_ok (submit_notification canonical_hash call) done),
      create_notify_submitted canonical_hash true later again lost row false
          (transaction_ok (submit_notification canonical_hash again) repeated),
    )
