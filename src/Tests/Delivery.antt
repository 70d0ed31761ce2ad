-- ===== src/Tests/Delivery.antt =====
-- Deliveries, the retry policy and the providers on concrete data.
use mathlib.Core.List.{Perm}
use relays.Notification.Completion.{Message, IsEmail, AreNew, deliver_messages}
use relays.Notification.Completion.Ends.{Ended, deliver_messages_end}
use relays.Notification.Lifecycle.{Later, Checked}
use relays.Table.Evolve.{Evolve}
use relays.Notification.Interleaving.Growth.{Reach-Later, sent_is_final}
use relays.Notification.Interleaving.Recorded.{Reach-IsRecorded}
use relays.Notification.ClaimLaws.{IsDue, Earlier, claimed-IsDue}
use relays.Table.Partition.{EachBefore}
use relays.Notification.Backoff.{capped_delay-doubles, next_retry_bounds}
use relays.Core.Result.{ok}
use relays.Notification.Settlement.{IsFresh, settled, attempted, persist_delivery_result_lem}
use relays.Notification.Provider.Registry.{no_providers}
use relays.Notification.Interleaving.{Step, here, next}
use relays.Notification.Claim.{claimed}
use relays.Notification.Provider.MailRelay.{
  MailRelayConfig, MailRelaySendRequest, is_error, HttpOutcome, is_retryable, response, not_json,
}
use relays.Notification.RetryPolicy.{calculate_next_retry_time, capped_delay}
use relays.Notification.Model.{Notification, NotificationState, EmailNotificationProviders}
use relays.Table.{find_first, update_returning, insert_returning, exists_row, update_where}
use relays.Notification.Queries.{
  notification_check, has_id, increment_attempt_count, record_delivery_attempt, schedule_retry,
}
use relays.Notification.Delivery.{
  persist_delivery_result, persist_attempt, settle, retry_or_fail, execute, on_notifications,
  on_attempts, validate_delivery_eligibility, Worker,
}
use relays.Prelude.{
  ℕ, ◌+◌, ◌*◌, ◌^◌, ◌≤◌, min, ◌≡◌, refl, ◌⊎◌, true, false, not, Option, some, List, [], ◌∷◌, ◌++◌,
  arith, str_eq, Time, map_option, All, length,
}
use relays.Tests.Data.{
  welcome, queued_db, worker_env, sent_notification, policy, queued_notification, sent_db,
  temporary, channel_hash,
}
use relays.Notification.History.{IsRecorded, numbers, one_to}

-- The first attempt fails for a while, and the retry is planned at 201 + 30.
first_attempt :
    map_option {B = ℕ × Option Time}
      (λ n. (n.attempt_count, n.next_retry_at))
      (find_first
        (has_id 70)
        (persist_delivery_result worker_env queued_notification temporary
          queued_db).1.notifications)
    ≡ some (1, some 231)
unfolding persist_delivery_result persist_attempt settle retry_or_fail execute on_notifications
    on_attempts increment_attempt_count record_delivery_attempt schedule_retry update_returning
    insert_returning notification_check calculate_next_retry_time capped_delay find_first exists_row
    update_where
first_attempt = refl

queued_db-IsRecorded : IsRecorded queued_db
unfolding numbers one_to
queued_db-IsRecorded = record { histories = (refl, tt); owned = tt }

-- Two deliveries of the same message from one snapshot, as after a redelivery by the broker.
Reach-IsRecorded_example :
    IsRecorded
      (persist_delivery_result worker_env queued_notification temporary
        (persist_delivery_result worker_env queued_notification temporary queued_db).1).1
Reach-IsRecorded_example = Reach-IsRecorded channel_hash queued_db _ queued_db-IsRecorded (
    next (next here (Step.persist worker_env queued_notification temporary queued_db)) (
      Step.persist worker_env queued_notification temporary
        (persist_delivery_result worker_env queued_notification temporary queued_db).1))

sent_notification-Checked : notification_check sent_notification ≡ true
unfolding notification_check
sent_notification-Checked = refl

find_sent : find_first (has_id 70) sent_db.notifications ≡ some sent_notification
unfolding find_first
find_sent = refl

-- A stale delivery that failed for a while comes after the one that succeeded.
sent_is_final_example :
    (m : Notification) × (find_first
        (has_id 70)
        (persist_delivery_result worker_env queued_notification temporary sent_db).1.notifications
      ≡ some m)
    × (m.state ≡ NotificationState.sent)
    × (sent_notification.attempt_count ≤ m.attempt_count)
sent_is_final_example =
    sent_is_final channel_hash sent_db
      (persist_delivery_result worker_env queued_notification temporary sent_db).1 70
      sent_notification (sent_notification-Checked, tt) find_sent refl
      (next here (Step.persist worker_env queued_notification temporary sent_db))

next_retry_bounds_example :
    (at : Time) × (calculate_next_retry_time policy 201 (λ bound. bound) 3 ≡ ok at)
    × (201 ≤ at)
    × (at ≤ 201 + 30 * 2 ^ 2)
    × (at ≤ 201 + 600)
next_retry_bounds_example = next_retry_bounds policy 201 (λ bound. bound) 2 (λ bound. omega arith)

capped_delay-doubles_example : capped_delay policy 6 ≡ min (2 * capped_delay policy 5) 600
capped_delay-doubles_example = capped_delay-doubles policy 4

abbrev sender : MailRelayConfig
sender = record {
  sender_email = "noreply@relays.dev";
  sender_name = "Relays";
  is_email = λ value. not (str_eq value "");
}

abbrev unavailable : MailRelaySendRequest → HttpOutcome
unavailable request = response (record { status_code = 503; body = not_json; text = "" })

claimed-IsDue_example :
    let rows = claimed (λ _. false) 300 1 queued_db.notifications in
    (rest : List Notification) × Perm (rows ++ rest) queued_db.notifications
    × (length rows ≤ 1)
    × All (IsDue (λ _. false) 300) rows
    × EachBefore Earlier rows
    × All
        (λ n. (¬ IsDue (λ _. false) 300 n) ⊎ ((length rows ≡ 1) × All (λ m. Earlier m n) rows))
        rest
claimed-IsDue_example = claimed-IsDue (λ _. false) 300 1 queued_db.notifications

queued_notification-IsFresh : IsFresh worker_env queued_notification [] []
unfolding exists_row validate_delivery_eligibility notification_check
queued_notification-IsFresh = record {
  none_before = refl;
  none_after = refl;
  eligible = refl;
  checked = refl;
  now_after = omega arith;
  clock_after = omega arith;
}

persist_delivery_result_lem_example :
    persist_delivery_result worker_env queued_notification temporary queued_db ≡ (
      ok tt,
      record queued_db {
        notifications = settled temporary.status worker_env queued_notification temporary ∷ [];
        delivery_attempts =
            queued_db.delivery_attempts ++ attempted worker_env queued_notification temporary ∷ [];
      },
    )
unfolding exists_row
persist_delivery_result_lem_example =
    persist_delivery_result_lem worker_env queued_notification temporary [] []
      queued_notification-IsFresh queued_db refl

Reach-Later_example :
    Evolve Later sent_db.notifications
      (persist_delivery_result worker_env queued_notification temporary sent_db).1.notifications
    × All Checked
        (persist_delivery_result worker_env queued_notification temporary sent_db).1.notifications
Reach-Later_example =
    Reach-Later channel_hash sent_db
      (persist_delivery_result worker_env queued_notification temporary sent_db).1
      (sent_notification-Checked, tt)
      (next here (Step.persist worker_env queued_notification temporary sent_db))

-- The notification of the tests, for MailRelay, and one message for each of its attempts.
abbrev mailrelay_notification : Notification
mailrelay_notification = record queued_notification {
  provider = EmailNotificationProviders.mailrelay;
}

abbrev message_at : (serial : ℕ) → Message
message_at serial = record {
  env = record {
    config = policy;
    now = 200 + serial;
    clock = 200 + serial;
    draw = λ bound. bound;
    attempt_id = serial;
  };
  post = unavailable;
}

abbrev messages : List Message
messages = message_at 1 ∷ message_at 2 ∷ message_at 3 ∷ message_at 4 ∷ message_at 5 ∷ []

abbrev mailrelay_worker : Worker
mailrelay_worker = record {
  db = record queued_db { notifications = mailrelay_notification ∷ [] };
  registry = no_providers;
}

mailrelay_notification-IsEmail : IsEmail welcome 70 100 5 mailrelay_notification
unfolding notification_check
mailrelay_notification-IsEmail = record {
  kept = (refl, refl, refl, refl, refl);
  checked = refl;
  alive = refl;
}

no_other : exists_row (has_id 70) [] ≡ false
unfolding exists_row
no_other = refl

deliver_messages_end_example :
    Ended welcome 70 100 5 [] [] no_other no_other
      (deliver_messages sender 70 messages mailrelay_worker)
unfolding exists_row AreNew
deliver_messages_end_example =
    deliver_messages_end welcome 70 100 5 [] [] no_other no_other sender messages
      mailrelay_notification mailrelay_worker mailrelay_notification-IsEmail refl refl
      (ground arith) (ground arith) (omega arith)
