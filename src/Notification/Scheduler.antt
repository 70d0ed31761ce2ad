-- ===== src/Notification/Scheduler.antt =====
-- app/modules/notifications/workflows/retry_scheduler.py and `retry_scheduler_task` of
-- app/infra/workers/tasks.py: claim the due retries in a transaction, then put each on its queue.
use relays.Prelude.{ℕ, Uuid, Time, Bool, List, [], ◌∷◌, length}
use relays.Core.Result.{ok, err, Action, transaction}
use relays.Notification.Model.{Notification, Database}
use relays.Notification.Claim.{claim_retryable_notifications}
use relays.Notification.Delivery.{on_notifications}
use relays.Notification.Routes.{System, enqueue}

unfoldable pub retry_scheduled_notifications :
    (locked : Uuid → Bool) → (now : Time) → (limit : ℕ) → Action Database (List Notification)
retry_scheduled_notifications locked now limit =
    transaction (on_notifications (claim_retryable_notifications locked now limit))

-- The loop of the task, with a broker that takes every message.
unfoldable pub enqueue_all : List Notification → System → System
enqueue_all [] s = s
enqueue_all (n ∷ ns) s = enqueue_all ns (enqueue n.id n.channel s)

-- The task runs with the default limit.
unfoldable pub retry_scheduler_task : (locked : Uuid → Bool) → (now : Time) → Action System ℕ
retry_scheduler_task locked now s =
    let (r, db') = retry_scheduled_notifications locked now 100 s.db in
    elim r [
      | err e ↦ (err e, record s { db = db' })
      | ok notifications ↦
          (ok (length notifications), enqueue_all notifications (record s { db = db' }))
    ]
