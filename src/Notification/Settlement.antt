-- ===== src/Notification/Settlement.antt =====
-- What one delivery, from a row that is still as it was read, leaves in the database.
use relays.Prelude.{
  ℕ, ◌+◌, ◌-◌, ◌*◌, ◌^◌, ◌≤◌, min, String, ◌≡◌, refl, ap, ◌∙◌, inl, inr, true, false, Option, none,
  some, List, [], ◌∷◌, ◌++◌, arith, str_eq, leb, if◌then◌else◌, Bool-cases, ==_refl,
}
use relays.Core.Result.{ok, ◌>>=◌}
use relays.Core.Triple.{bind_ok, transaction_ok}
use relays.Table.{exists_row, update_returning, insert_returning}
use relays.Table.Laws.{insert_returning_ok, update_returning-one}
use relays.Notification.Model.{
  Notification, NotificationState, Database, DeliveryStatus, ProviderResult, DeliveryAttempt,
}
use relays.Notification.Queries.{
  notification_check, has_id, sent_row, failed_row, retry_row, attempted_row, counted_row,
  increment_attempt_count, mark_sent, mark_failed, schedule_retry, record_delivery_attempt,
  same_attempt, attempt_check, ignore_row,
}
use relays.Notification.RetryPolicy.{capped_delay, calculate_next_retry_time}
use relays.Notification.Delivery.{
  Env, validate_delivery_eligibility, persist_delivery_result, persist_attempt, settle,
  retry_or_fail, execute, skip_row, on_notifications, on_attempts, on_notifications_lem,
  on_attempts_lem, or_text,
}

-- The message of the provider, or another in place of a missing or an empty one.
abbrev pub message_or : String → Option String → String
message_or fallback none = fallback
message_or fallback (some message) = if str_eq message "" then fallback else message

message_or_lem :
    (fallback : String) (message : Option String)
    → or_text message fallback ≡ message_or fallback message
message_or_lem fallback none = refl
message_or_lem fallback (some message) = refl

-- The row after the delivery, column by column.
abbrev pub sent_after : Env → Notification → Notification
sent_after env n = record n {
  state = NotificationState.sent;
  attempt_count = n.attempt_count + 1;
  next_retry_at = none;
  last_attempt_at = some env.now;
  sent_at = some env.now;
  updated_at = env.now;
}

abbrev pub failed_after : Env → (last_error : String) → Notification → Notification
failed_after env last_error n = record n {
  state = NotificationState.failed;
  attempt_count = n.attempt_count + 1;
  next_retry_at = none;
  last_attempt_at = some env.now;
  last_error = some last_error;
  updated_at = env.now;
}

-- The bound of the delay: the first delay, doubled for each earlier attempt, and at most the largest.
abbrev pub delay_bound : Env → Notification → ℕ
delay_bound env n =
    min (env.config.initial_retry_delay_seconds * 2 ^ n.attempt_count)
      env.config.max_retry_delay_seconds

abbrev pub queued_after : Env → Notification → Notification
queued_after env n = record n {
  state = NotificationState.queued;
  attempt_count = n.attempt_count + 1;
  next_retry_at = some (env.clock + env.draw (delay_bound env n));
  last_attempt_at = some env.now;
  updated_at = env.now;
}

abbrev pub settled : DeliveryStatus → Env → Notification → ProviderResult → Notification
settled DeliveryStatus.success env n result = sent_after env n
settled DeliveryStatus.permanent_failure env n result =
    failed_after env (message_or "Unknown Provider Error" result.error_message) n
settled DeliveryStatus.temporary_failure env n result =
    if leb n.max_attempts (n.attempt_count + 1)
    then failed_after env (message_or "Maximum retry attempts reached." result.error_message) n
    else queued_after env n

-- The row of the attempt.
abbrev pub attempted : Env → Notification → ProviderResult → DeliveryAttempt
attempted env n result = record {
  id = env.attempt_id;
  notification_id = n.id;
  attempt_number = n.attempt_count + 1;
  status = result.status;
  provider = result.provider;
  error_message = result.error_message;
  provider_error_code = result.provider_error_code;
  provider_message_id = result.provider_message_id;
  raw_provider_response = result.raw_provider_response;
  created_at = env.now;
}

-- The row is the only one of its identifier, may be delivered, meets its constraints, and was not
-- created after the instants of the delivery.
pub record IsFresh (env : Env) (n : Notification) (before after : List Notification) : Type 0 where
  pub none_before : exists_row (has_id n.id) before ≡ false
  pub none_after : exists_row (has_id n.id) after ≡ false
  pub eligible : validate_delivery_eligibility n ≡ ok tt
  pub checked : notification_check n ≡ true
  pub now_after : n.created_at ≤ env.now
  pub clock_after : n.created_at ≤ env.clock

module _ (env : Env) (n : Notification) (result : ProviderResult) (before after : List Notification)
    (fresh : IsFresh env n before after) where
  abbrev counted : Notification
  counted = attempted_row env.now n

  abbrev at_place : Notification → List Notification
  at_place row = before ++ row ∷ after

  counted_check : notification_check counted ≡ true
  unfolding notification_check validate_delivery_eligibility
  counted_check = ground (arith, fresh.eligible, fresh.checked, fresh.now_after)

  pub sent_check : notification_check (sent_row env.now counted) ≡ true
  unfolding notification_check validate_delivery_eligibility
  sent_check = ground (arith, fresh.eligible, fresh.checked, fresh.now_after)

  pub failed_check :
      (message : String) → notification_check (failed_row env.now message counted) ≡ true
  unfolding notification_check validate_delivery_eligibility
  failed_check message = ground (arith, fresh.eligible, fresh.checked, fresh.now_after)

  pub retry_check :
      (delay : ℕ) → notification_check (retry_row env.now (env.clock + delay) counted) ≡ true
  unfolding notification_check validate_delivery_eligibility
  retry_check delay =
      ground (arith, fresh.eligible, fresh.checked, fresh.now_after, fresh.clock_after)

  module _ (db : Database)
      (new : exists_row (same_attempt (attempted env n result)) db.delivery_attempts ≡ false) where
    abbrev attempt : DeliveryAttempt
    attempt = attempted env n result

    -- The database with a row in the place of the notification, before the attempt is recorded.
    abbrev holding : Notification → Database
    holding row = record db { notifications = at_place row }

    abbrev recorded : Notification → Database
    recorded row = record db {
      notifications = at_place row;
      delivery_attempts = db.delivery_attempts ++ attempt ∷ [];
    }

    incremented :
        on_notifications (increment_attempt_count env.now n.id) (holding n)
        ≡ (ok (n.attempt_count + 1), holding counted)
    unfolding increment_attempt_count
    incremented =
        let update = update_returning notification_check (has_id n.id) (attempted_row env.now) in
        on_notifications_lem (increment_attempt_count env.now n.id) (holding n) (
          bind_ok {B = ℕ} update counted_row (
            update_returning-one notification_check (has_id n.id) (attempted_row env.now) n before
              after fresh.none_before fresh.none_after (==_refl n.id) counted_check))

    noted :
        on_attempts
          (record_delivery_attempt env.attempt_id env.now n.id (n.attempt_count + 1) result)
          (holding counted)
        ≡ (ok tt, recorded counted)
    unfolding record_delivery_attempt
    noted =
        on_attempts_lem
          (record_delivery_attempt env.attempt_id env.now n.id (n.attempt_count + 1) result)
          (holding counted)
          (bind_ok {B = Unit {0}} (insert_returning attempt_check same_attempt attempt) ignore_row (
            insert_returning_ok attempt_check same_attempt attempt db.delivery_attempts
              (ground arith) new))

    executed :
        (f : Notification → Notification)
        → notification_check (f counted) ≡ true
        → execute (update_returning notification_check (has_id n.id) f) (recorded counted)
          ≡ (ok tt, recorded (f counted))
    unfolding execute
    executed f fits =
        let update = update_returning notification_check (has_id n.id) f in
        bind_ok {B = Unit {0}} (on_notifications update) skip_row (
          on_notifications_lem update (recorded counted) (
            update_returning-one notification_check (has_id n.id) f counted before after
              fresh.none_before fresh.none_after (==_refl n.id) fits))

    next_time :
        calculate_next_retry_time env.config env.clock env.draw (n.attempt_count + 1)
        ≡ ok (env.clock + env.draw (capped_delay env.config (n.attempt_count + 1)))
    unfolding calculate_next_retry_time
    next_time = ground arith

    failed_by :
        (fallback : String)
        → execute
            (mark_failed env.now n.id (or_text result.error_message fallback))
            (recorded counted)
          ≡ (ok tt, recorded (failed_after env (message_or fallback result.error_message) n))
    unfolding mark_failed
    failed_by fallback =
        let message = or_text result.error_message fallback in
        executed (failed_row env.now message) (failed_check message)
        ∙ ap (λ m. (ok tt, recorded (failed_row env.now m counted)))
            (message_or_lem fallback result.error_message)

    bound_lem :
        capped_delay env.config (n.attempt_count + 1)
        ≡ min
            (env.config.initial_retry_delay_seconds * 2 ^ n.attempt_count)
            env.config.max_retry_delay_seconds
    unfolding capped_delay
    bound_lem =
        let earlier : n.attempt_count + 1 - 1 ≡ n.attempt_count = omega arith in rw earlier refl

    settled_by :
        (status : DeliveryStatus)
        → settle status env n result (n.attempt_count + 1) (recorded counted)
          ≡ (ok tt, recorded (settled status env n result))
    unfolding settle retry_or_fail mark_sent schedule_retry
    settled_by DeliveryStatus.success = executed (sent_row env.now) sent_check
    settled_by DeliveryStatus.permanent_failure = failed_by "Unknown Provider Error"
    settled_by DeliveryStatus.temporary_failure =
        elim (Bool-cases (leb n.max_attempts (n.attempt_count + 1))) [
          | inl last ↦ rw last (failed_by "Maximum retry attempts reached.")
          | inr more ↦
              let delay = env.draw (capped_delay env.config (n.attempt_count + 1)) in
              rw (more, next_time)
                (executed (retry_row env.now (env.clock + delay)) (retry_check delay)
                  ∙ ap
                      (λ bound.
                        (ok tt, recorded (retry_row env.now (env.clock + env.draw bound) counted)))
                      bound_lem)
        ]

    -- The write-back of a delivery succeeds, whatever the provider answered: it records one attempt,
    -- with the next number, and leaves the notification sent, failed, or queued with the time of the
    -- next attempt, as `settled` says; every other row is as before. This holds for an eligible
    -- notification that is alone with its identifier, meets its constraints and was not created after
    -- the instants of the delivery, if no attempt has the new number or row identifier.
    pub persist_delivery_result_lem :
        persist_delivery_result env n result (holding n)
        ≡ (ok tt, recorded (settled result.status env n result))
    unfolding persist_delivery_result persist_attempt
    persist_delivery_result_lem =
        let note =
          on_attempts
            (record_delivery_attempt env.attempt_id env.now n.id (n.attempt_count + 1) result) in
        let increment = on_notifications (increment_attempt_count env.now n.id) in
        transaction_ok (increment >>= persist_attempt env n result) (
          bind_ok {B = Unit {0}} increment (persist_attempt env n result) incremented
          ∙ bind_ok {B = Unit {0}} note
              (λ _. settle result.status env n result (n.attempt_count + 1)) noted
          ∙ settled_by result.status)
