-- ===== src/Notification/Interleaving.antt =====
-- Every interleaving of the writes to the notification tables: submissions, `mark_queued` after an
-- enqueue, the write-backs of deliveries, and the claims of the retry scheduler. A delivery's
-- write-back holds a snapshot of the row that it read before its send; here any snapshot is allowed,
-- so stale ones of duplicate deliveries are too.
pub mod Growth
pub mod Recorded
use relays.Notification.Scheduler.{retry_scheduled_notifications}
use relays.Notification.Queries.{mark_queued}
use relays.Notification.Delivery.{on_notifications, Env, persist_delivery_result}
use relays.Notification.Submission.{Submit, submit_notification}
use relays.Prelude.{Uuid, Time, Digest, ℕ, Bool, List, ◌≡◌, subst}
use relays.Core.Result.{Action, transaction}
use relays.Core.Triple.{Keeps, Keeps-bind, Keeps-transaction}
use relays.Notification.Model.{Database, Notification, NotificationRequest, ProviderResult}

module _ (canonical_hash : NotificationRequest → Digest) where
  pub data Step : Database → Database → Type 0 where
    submit :
        (call : Submit) (db : Database)
        → Step db (transaction (submit_notification canonical_hash call) db).1
    mark :
        (now : Time) (id : Uuid) (db : Database)
        → Step db (on_notifications (mark_queued now id) db).1
    persist :
        (env : Env) (notification : Notification) (result : ProviderResult) (db : Database)
        → Step db (persist_delivery_result env notification result db).1
    claim :
        (locked : Uuid → Bool) (now : Time) (limit : ℕ) (db : Database)
        → Step db (retry_scheduled_notifications locked now limit db).1

  pub data Reach (start : Database) : Database → Type 0 where
    here : Reach start start
    next : {db db' : Database} → Reach start db → Step db db' → Reach start db'

  -- A property that each write keeps holds of every database that is reached.
  pub Reach-induction :
      (P : Database → Type 0)
      → ((db db' : Database) → Step db db' → P db → P db')
      → {start db : Database} → Reach start db
      → P start
      → P db
  Reach-induction P step here h = h
  Reach-induction P step (next {db} {db'} r s) h = step db db' s (Reach-induction P step r h)
