-- ===== src/Notification/Interleaving/Recorded.antt =====
-- The recorded attempts under every interleaving of the writes.
use relays.Notification.Submission.Replay.{submit_existing_unchanged}
use relays.Notification.Submission.First.{created_row}
use relays.Core.Idempotency.{IdempotencyKey, complete_idempotency}
use relays.Notification.Scheduler.{retry_scheduled_notifications}
use relays.Notification.Delivery.{on_notifications}
use relays.Notification.Claim.{claim_retryable_notifications, processing_row}
use relays.Notification.Submission.{
  submit_inserted, submit_new, on_idempotency_keys, complete_new, insert_new, submit_notification,
  insert_key,
}
use relays.Notification.Model.{DeliveryAttempt}
use relays.Table.Laws.{exists_row-append, update_all_returning-state}
use relays.Prelude.{
  ◌≡◌, refl, sym, subst, inl, inr, Bool, true, false, Option, none, some, List, [], ◌∷◌, ◌++◌,
  arith, Uuid, Digest, ◌==◌, Bool-cases, All, All-append, All-map,
}
use relays.Core.Triple.{Keeps, Keeps-bind, Keeps-transaction}
use relays.Table.{update_returning, exists_row, insert_returning}
use relays.Table.Laws.{update_returning_cases, insert_returning_cases}
use relays.Notification.Queries.{
  create_notification, mark_queued, notification_check, has_id, same_notification,
}
use relays.Notification.History.{
  IsRecorded, HasHistory, IsOwned, numbers, one_to, persist_delivery_result-IsRecorded,
  update_where-IsRecorded,
}
use relays.Notification.Interleaving.{
  Step, Reach, Reach-induction, Notification, NotificationRequest, Database, submit_notification,
  retry_scheduled_notifications, on_notifications, Submit,
}

-- An update of the table notifications that changes neither an identifier nor a counter.
IsRecorded-update_where :
    (p : Notification → Bool) (f : Notification → Notification) (db : Database)
    → ((r : Notification) → (f r).id ≡ r.id)
    → ((r : Notification) → (f r).attempt_count ≡ r.attempt_count)
    → IsRecorded db
    → IsRecorded
        (record db { notifications = (update_returning notification_check p f db.notifications).1 })
IsRecorded-update_where p f db same_id same_count h =
    elim (update_returning_cases notification_check p f db.notifications) [
      | inl broken ↦ rw broken h
      | inr done ↦ rw done (update_where-IsRecorded p f db same_id same_count h)
    ]

-- No attempt is recorded for an identifier that no row has.
numbers-unowned :
    (id : Uuid) (t : List Notification) (attempts : List DeliveryAttempt)
    → All (IsOwned t) attempts
    → exists_row (has_id id) t ≡ false
    → numbers id attempts ≡ []
unfolding numbers
numbers-unowned id t [] h free = refl
numbers-unowned id t (a ∷ attempts) h free = elim (Bool-cases (a.notification_id == id)) [
  | inl hit ↦
      let same : a.notification_id ≡ id = ground arith in
      cc (free, subst (λ x. exists_row (has_id x) t ≡ true) same h.0)
  | inr miss ↦ rw miss (numbers-unowned id t attempts h.1 free)
]

IsRecorded-insert :
    (row : Notification) (db : Database)
    → row.attempt_count ≡ 0
    → IsRecorded db
    → IsRecorded (record db {
      notifications =
          (insert_returning notification_check same_notification row db.notifications).1;
    })
unfolding one_to
IsRecorded-insert row db unattempted h =
    elim (insert_returning_cases notification_check same_notification row db.notifications) [
      | inl (e, refused) ↦ rw refused h
      | inr (fits, free, done) ↦ rw done (record {
        histories =
            All-append (HasHistory db.delivery_attempts) db.notifications (row ∷ []) h.histories (
              rw (unattempted)
                  (numbers-unowned row.id db.notifications db.delivery_attempts h.owned free),
              tt,
            );
        owned =
            All-map (IsOwned db.notifications) (IsOwned (db.notifications ++ row ∷ []))
              db.delivery_attempts
              (λ a. exists_row-append (has_id a.notification_id) db.notifications (row ∷ []))
              h.owned;
      })
    ]

module _ (canonical_hash : NotificationRequest → Digest) where
  IsRecorded-submit_inserted :
      (call : Submit) (inserted : Option IdempotencyKey)
      → Keeps IsRecorded (submit_inserted canonical_hash call inserted)
  unfolding submit_inserted submit_new complete_new insert_new create_notification on_notifications
      on_idempotency_keys complete_idempotency
  IsRecorded-submit_inserted call (some row) db h =
      Keeps-bind IsRecorded (on_notifications (insert_new canonical_hash call))
        (complete_new canonical_hash row) (λ u k. IsRecorded-insert (created_row call) u refl k)
        (λ n u k. record { histories = k.histories; owned = k.owned }) db h
  IsRecorded-submit_inserted call none db h =
      subst IsRecorded (sym (submit_existing_unchanged canonical_hash call db)) h

  IsRecorded-submit_notification :
      (call : Submit) → Keeps IsRecorded (submit_notification canonical_hash call)
  unfolding submit_notification on_idempotency_keys
  IsRecorded-submit_notification call =
      Keeps-bind IsRecorded (on_idempotency_keys (insert_key canonical_hash call))
        (submit_inserted canonical_hash call)
        (λ u k. record { histories = k.histories; owned = k.owned })
        (IsRecorded-submit_inserted call)

  IsRecorded-Step :
      (db db' : Database) → Step canonical_hash db db' → IsRecorded db → IsRecorded db'
  unfolding retry_scheduled_notifications on_notifications mark_queued claim_retryable_notifications
  IsRecorded-Step db db' (Step.submit call d) h =
      Keeps-transaction IsRecorded (submit_notification canonical_hash call)
        (IsRecorded-submit_notification call) d h
  IsRecorded-Step db db' (Step.mark now id d) h =
      IsRecorded-update_where _ _ d (λ r. refl) (λ r. refl) h
  IsRecorded-Step db db' (Step.persist env n result d) h =
      persist_delivery_result-IsRecorded env n result d h
  IsRecorded-Step db db' (Step.claim locked now limit d) h =
      Keeps-transaction IsRecorded
        (on_notifications (claim_retryable_notifications locked now limit))
        (λ u k.
          rw (update_all_returning-state notification_check _ (processing_row now) u.notifications)
            (IsRecorded-update_where _ _ u (λ r. refl) (λ r. refl) k))
        d h

-- From a database whose attempts are recorded as 1, …, attempt_count for each notification (an empty
-- one, for example), every interleaving of the writes leads to such a database: no attempt is lost,
-- recorded twice or numbered out of order, also under duplicate deliveries.
pub Reach-IsRecorded :
    (canonical_hash : NotificationRequest → Digest) (start db : Database)
    → IsRecorded start
    → Reach canonical_hash start db
    → IsRecorded db
Reach-IsRecorded canonical_hash start db h r =
    Reach-induction canonical_hash IsRecorded (IsRecorded-Step canonical_hash) r h
