-- ===== src/Notification/Claim.antt =====
-- `claim_retryable_notifications` of app/modules/notifications/db/notification_queries.py: the due
-- retries, oldest first, at most `limit`, are moved to `processing` and returned.
use relays.Prelude.{
  ℕ, Bool, false, not, ◌&&◌, ◌||◌, Option, none, some, List, Uuid, Time, ltb, leb, ◌==◌, take,
}
use relays.Core.Result.{Action}
use relays.Table.{select_where, exists_row, update_all_returning}
use relays.Table.Order.{order_by}
use relays.Notification.Model.{NotificationState, Notification}
use relays.Notification.Queries.{is_queued, notification_check}

abbrev null_le : Option Time → Time → Bool
null_le none now = false
null_le (some t) now = leb t now

-- `locked` are the rows that another transaction holds, which SKIP LOCKED passes over.
unfoldable pub is_due : (locked : Uuid → Bool) → Time → Notification → Bool
is_due locked now n = is_queued n.state && null_le n.next_retry_at now && not (locked n.id)

abbrev retry_instant : Option Time → Time
retry_instant none = 0
retry_instant (some t) = t

-- ORDER BY next_retry_at ASC, created_at ASC; a due row has its `next_retry_at`.
unfoldable pub due_before : Notification → Notification → Bool
due_before n m =
    let a = retry_instant n.next_retry_at in
    let b = retry_instant m.next_retry_at in ltb a b || (a == b && leb n.created_at m.created_at)

-- The common table expression `claimed`.
unfoldable pub claimed :
    (locked : Uuid → Bool) → Time → (limit : ℕ) → List Notification → List Notification
claimed locked now limit t = take limit (order_by due_before (select_where (is_due locked now) t))

abbrev pub processing_row : Time → Notification → Notification
processing_row now n = record n {
  state = NotificationState.processing;
  next_retry_at = none;
  updated_at = now;
}

unfoldable pub is_claimed : List Notification → Notification → Bool
is_claimed claimed_rows n = exists_row (λ m. m.id == n.id) claimed_rows

unfoldable pub claim_retryable_notifications :
    (locked : Uuid → Bool) → Time → (limit : ℕ) → Action (List Notification) (List Notification)
claim_retryable_notifications locked now limit t =
    update_all_returning notification_check (is_claimed (claimed locked now limit t))
      (processing_row now) t
