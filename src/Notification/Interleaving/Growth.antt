-- ===== src/Notification/Interleaving/Growth.antt =====
-- The table notifications under every interleaving: rows are never lost, and change as
-- `Lifecycle.Later` says.
use relays.Notification.Submission.Replay.{submit_existing_unchanged}
use relays.Table.Laws.{update_all_returning-state, All-insert_returning}
use relays.Notification.Interleaving.{Step, Reach, Reach-induction}
use relays.Notification.Queries.{mark_queued}
use relays.Table.Evolve.{Evolve, Evolve-refl, Evolve-trans, Evolve-insert_returning}
use relays.Notification.Scheduler.{retry_scheduled_notifications}
use relays.Core.Idempotency.{IdempotencyKey, complete_idempotency}
use relays.Table.{find_first}
use relays.Notification.Claim.{claim_retryable_notifications, is_claimed, claimed, processing_row}
use relays.Notification.Submission.{
  on_idempotency_keys, Submit, submit_inserted, submit_notification, submit_new, insert_key,
  complete_new, insert_new,
}
use relays.Notification.RetryPolicy.{calculate_next_retry_time}
use relays.Notification.Delivery.Cases.{Result-cases}
use relays.Notification.Queries.{
  increment_attempt_count, record_delivery_attempt, create_notification, has_id, new_notification,
  notification_check, same_notification,
}
use relays.Core.Triple.{Keeps, Keeps-bind, Keeps-transaction}
use relays.Core.Result.{Action, ◌>>=◌, pure}
use relays.Notification.Lifecycle.{
  Grown, Grown-mark_sent, Grown-mark_failed, Grown-increment_attempt_count, Grown-schedule_retry,
  Checked, Later, Grown-mark_queued, Later-refl, Later-trans, Grown-update_returning,
  Later-processing_row,
}
use relays.Notification.Delivery.{
  on_notifications, execute, on_attempts, settle, persist_delivery_result, Env, skip_row,
  retry_or_fail, persist_attempt,
}
use relays.Notification.Model.{
  Notification, Database, DeliveryStatus, ProviderResult, DeliveryAttempt, NotificationRequest,
  NotificationChannel, EmailNotificationProviders, Payload, Metadata, NotificationState,
}
use relays.Prelude.{
  ℕ, ◌≤◌, String, ◌≡◌, sym, subst, inl, inr, Bool, true, false, Option, none, some, List, [], ◌∷◌,
  arith, Uuid, Digest, Time, leb, Bool-cases, All,
}

module _ (base : List Notification) where
  abbrev GrownDb : Database → Type 0
  GrownDb db = Grown base db.notifications

  GrownDb-on_notifications :
      {A : Type 0} (m : Action (List Notification) A)
      → Keeps (Grown base) m
      → Keeps GrownDb (on_notifications m)
  unfolding on_notifications
  GrownDb-on_notifications m km db h = km db.notifications h

  GrownDb-execute :
      (m : Action (List Notification) (Option Notification))
      → Keeps (Grown base) m
      → Keeps GrownDb (execute m)
  unfolding execute
  GrownDb-execute m km =
      Keeps-bind GrownDb (on_notifications m) skip_row (GrownDb-on_notifications m km) λ _ s h. h

  GrownDb-on_attempts :
      {A : Type 0} (m : Action (List DeliveryAttempt) A) → Keeps GrownDb (on_attempts m)
  unfolding on_attempts
  GrownDb-on_attempts m db h = h

  GrownDb-settle :
      (status : DeliveryStatus) (env : Env) (notification : Notification) (result : ProviderResult)
      (number : ℕ)
      → Keeps GrownDb (settle status env notification result number)
  unfolding settle retry_or_fail
  GrownDb-settle DeliveryStatus.success env notification result number db h =
      GrownDb-execute _ (Grown-mark_sent base env.now notification.id) db h
  GrownDb-settle DeliveryStatus.permanent_failure env notification result number db h =
      GrownDb-execute _ (Grown-mark_failed base env.now notification.id _) db h
  GrownDb-settle DeliveryStatus.temporary_failure env notification result number db h =
      elim (Bool-cases (leb notification.max_attempts number)) [
        | inl spent ↦
            rw spent (GrownDb-execute _ (Grown-mark_failed base env.now notification.id _) db h)
        | inr left ↦
            rw left
              (elim (Result-cases
                (calculate_next_retry_time env.config env.clock env.draw number)) [
                  | inl (e, refused) ↦ rw refused h
                  | inr (at, planned) ↦ rw planned (
                      GrownDb-execute _ (Grown-schedule_retry base env.now notification.id at) db h)
                ])
      ]

  GrownDb-persist_attempt :
      (env : Env) (notification : Notification) (result : ProviderResult) (number : ℕ)
      → Keeps GrownDb (persist_attempt env notification result number)
  unfolding persist_attempt
  GrownDb-persist_attempt env notification result number =
      let m = record_delivery_attempt env.attempt_id env.now notification.id number result in
      Keeps-bind GrownDb (on_attempts m) (λ _. settle result.status env notification result number)
        (GrownDb-on_attempts m) λ _. GrownDb-settle result.status env notification result number

  GrownDb-persist_delivery_result :
      (env : Env) (notification : Notification) (result : ProviderResult)
      → Keeps GrownDb (persist_delivery_result env notification result)
  unfolding persist_delivery_result
  GrownDb-persist_delivery_result env notification result =
      let increment = on_notifications (increment_attempt_count env.now notification.id) in
      let rest = persist_attempt env notification result in
      Keeps-transaction GrownDb (increment >>= rest) (
        Keeps-bind GrownDb increment rest
          (GrownDb-on_notifications _ (Grown-increment_attempt_count base env.now notification.id))
          (GrownDb-persist_attempt env notification result))

  GrownDb-on_idempotency_keys :
      {A : Type 0} (m : Action (List IdempotencyKey) A) → Keeps GrownDb (on_idempotency_keys m)
  unfolding on_idempotency_keys
  GrownDb-on_idempotency_keys m db h = h

  Grown-create_notification :
      (id : Uuid) (now : Time) (workspace_id api_key_id : Uuid) (channel : NotificationChannel)
      (provider : EmailNotificationProviders) (recipient : String) (payload : Payload)
      (metadata : Option Metadata)
      → Keeps (Grown base) (
          create_notification id now workspace_id api_key_id channel provider recipient payload
            metadata)
  unfolding create_notification
  Grown-create_notification id now workspace_id api_key_id channel provider recipient payload
        metadata t h =
      let row =
        new_notification id now workspace_id api_key_id channel provider recipient payload
          metadata in
      (
        Evolve-trans Later Later-trans base t _ h.0
            (Evolve-insert_returning Later Later-refl notification_check same_notification row t),
        All-insert_returning Checked notification_check same_notification row t (λ fits _. fits)
            h.1,
      )

  module _ (canonical_hash : NotificationRequest → Digest) (call : Submit) where
    GrownDb-submit_inserted :
        (inserted : Option IdempotencyKey)
        → Keeps GrownDb (submit_inserted canonical_hash call inserted)
    unfolding submit_inserted submit_new complete_new insert_new
    GrownDb-submit_inserted (some row) db h =
        Keeps-bind GrownDb (on_notifications (insert_new canonical_hash call))
          (complete_new canonical_hash row)
          (GrownDb-on_notifications _ (Grown-create_notification _ _ _ _ _ _ _ _ _))
          (λ n.
            Keeps-bind GrownDb (on_idempotency_keys (complete_idempotency row.id n.id))
              (λ _. pure (n, true)) (GrownDb-on_idempotency_keys _) λ _ s h. h)
          db h
    GrownDb-submit_inserted none db h =
        subst GrownDb (sym (submit_existing_unchanged canonical_hash call db)) h

    GrownDb-submit_notification : Keeps GrownDb (submit_notification canonical_hash call)
    unfolding submit_notification
    GrownDb-submit_notification =
        Keeps-bind GrownDb (on_idempotency_keys (insert_key canonical_hash call))
          (submit_inserted canonical_hash call) (GrownDb-on_idempotency_keys _)
          GrownDb-submit_inserted

  Grown-claim :
      (locked : Uuid → Bool) (now : Time) (limit : ℕ)
      → Keeps (Grown base) (claim_retryable_notifications locked now limit)
  unfolding claim_retryable_notifications
  Grown-claim locked now limit t h =
      let p = is_claimed (claimed locked now limit t) in
      subst (Grown base)
        (sym (update_all_returning-state notification_check p (processing_row now) t))
        (Grown-update_returning base p (processing_row now)
          (λ a before after. Later-processing_row a before now after) t h)

  module _ (canonical_hash : NotificationRequest → Digest) where
    GrownDb-Step : (db db' : Database) → Step canonical_hash db db' → GrownDb db → GrownDb db'
    unfolding retry_scheduled_notifications
    GrownDb-Step db db' (Step.submit call d) h =
        Keeps-transaction GrownDb (submit_notification canonical_hash call)
          (GrownDb-submit_notification canonical_hash call) d h
    GrownDb-Step db db' (Step.mark now id d) h =
        GrownDb-on_notifications (mark_queued now id) (Grown-mark_queued base now id) d h
    GrownDb-Step db db' (Step.persist env n result d) h =
        GrownDb-persist_delivery_result env n result d h
    GrownDb-Step db db' (Step.claim locked now limit d) h =
        Keeps-transaction GrownDb
          (on_notifications (claim_retryable_notifications locked now limit))
          (GrownDb-on_notifications _ (Grown-claim locked now limit)) d h

-- From a table whose rows meet their constraints, whatever requests, deliveries and schedulers write
-- and in whatever order, every row is still at its place and has changed as `Later` says.
pub Reach-Later :
    (canonical_hash : NotificationRequest → Digest) (start db : Database)
    → All Checked start.notifications
    → Reach canonical_hash start db
    → Evolve Later start.notifications db.notifications × All Checked db.notifications
Reach-Later canonical_hash start db checked r =
    Reach-induction canonical_hash (GrownDb start.notifications)
      (GrownDb-Step start.notifications canonical_hash) r
      (Evolve-refl Later Later-refl start.notifications, checked)

-- The row of an identifier, followed through the growth of the table.
find_first-Evolve :
    (id : Uuid) (t u : List Notification) (a : Notification)
    → Evolve Later t u
    → find_first (has_id id) t ≡ some a
    → (b : Notification) × (find_first (has_id id) u ≡ some b) × Later a b
unfolding find_first
find_first-Evolve id [] u a h e = cc
find_first-Evolve id (x ∷ t) [] a h e = absurd h
find_first-Evolve id (x ∷ t) (y ∷ u) a h e = elim (Bool-cases (has_id id x)) [
  | inl hit ↦
      let same : x ≡ a = ground arith in
      let later : Later a y = subst (λ z. Later z y) same h.0 in (y, ground (arith, h.0.id), later)
  | inr miss ↦
      let skip : has_id id y ≡ false = ground (arith, h.0.id) in
      rw skip (find_first-Evolve id t u a h.1 (ground arith))
]

-- A notification that is marked as sent is never lost, and never read as anything but sent again,
-- by whatever interleaving of submissions, duplicate deliveries with stale snapshots, and retries.
pub sent_is_final :
    (canonical_hash : NotificationRequest → Digest) (start db : Database) (id : Uuid)
    (n : Notification)
    → All Checked start.notifications
    → find_first (has_id id) start.notifications ≡ some n
    → n.state ≡ NotificationState.sent
    → Reach canonical_hash start db
    → (m : Notification) × (find_first (has_id id) db.notifications ≡ some m)
      × (m.state ≡ NotificationState.sent)
      × (n.attempt_count ≤ m.attempt_count)
sent_is_final canonical_hash start db id n checked found sent r =
    let (m, there, later) =
      find_first-Evolve id start.notifications db.notifications n
        (Reach-Later canonical_hash start db checked r).0 found in
    (m, there, ground (arith, later.sent), later.attempts)
