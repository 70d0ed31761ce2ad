-- ===== src/Notification/Completion/Ends.antt =====
-- Enough messages end a notification.
use relays.Prelude.{
  ℕ, ◌+◌, ◌≤◌, ◌≡◌, refl, sym, ap, subst, ◌∙◌, inl, inr, true, false, some, List, [], ◌∷◌, ◌++◌,
  arith, Uuid, leb, ◌==◌, Bool-cases, Option-cases, ==_refl, All, length,
}
use relays.Core.Result.{ok, Result}
use relays.Table.{find_first, exists_row}
use relays.Notification.Model.{
  Notification, EmailPayload, EmailNotificationProviders, email_payload, DeliveryStatus,
  ProviderResult, Database,
}
use relays.Notification.Queries.{
  notification_check, has_id, get_notification, new_attempt, same_attempt,
}
use relays.Notification.Provider.MailRelay
use relays.Notification.Provider.MailRelay.{MailRelayConfig, MailRelaySendRequest, HttpOutcome}
use relays.Notification.Provider.Registry
use relays.Notification.Provider.Registry.{EmailProviderRegistry}
use relays.Notification.Delivery.{
  Env, Worker, validate_delivery_eligibility, model_validate, configured, send_by, attempt_delivery,
  deliver_found, deliver_notification, persist_delivery_result,
}
use relays.Notification.Settlement.{
  IsFresh, settled, message_or, delay_bound, sent_check, failed_check, retry_check,
  persist_delivery_result_lem,
}
use relays.Notification.Refusal.{deliver_notification_refused}
use relays.Notification.Completion.{
  Message, deliver_messages, is_over, IsEmail, is_later_attempt, has_attempt_id, AreNew,
  unattempted, attempts_after, AreNew-after,
}

-- A send through MailRelay always has a result.
sent_by_mailrelay :
    (sender : MailRelayConfig) (post : MailRelaySendRequest → HttpOutcome) (n : Notification)
    (payload : EmailPayload) (registry : EmailProviderRegistry)
    → validate_delivery_eligibility n ≡ ok tt
    → n.payload ≡ email_payload payload
    → n.provider ≡ EmailNotificationProviders.mailrelay
    → attempt_delivery sender post n registry ≡ (
      ok (MailRelay.send sender post payload),
      (Registry.get EmailNotificationProviders.mailrelay registry).1,
    )
unfolding attempt_delivery model_validate Registry.get configured send_by
sent_by_mailrelay sender post n payload registry eligible is_payload is_mailrelay =
    elim (Option-cases registry.mailrelay) [
      | inl none_yet ↦ rw (attempt_delivery, eligible, is_payload, is_mailrelay, none_yet) refl
      | inr (p, there) ↦ rw (attempt_delivery, eligible, is_payload, is_mailrelay, there) refl
    ]

find_first_in_place :
    (id : Uuid) (before after : List Notification) (n : Notification)
    → exists_row (has_id id) before ≡ false
    → (n.id == id) ≡ true
    → find_first (has_id id) (before ++ n ∷ after) ≡ some n
unfolding find_first exists_row
find_first_in_place id [] after n free hit = ground arith
find_first_in_place id (x ∷ before) after n free hit =
    ground (arith, find_first_in_place id before after n)

module _ (payload : EmailPayload) (id : Uuid) (created_at max_attempts : ℕ)
    (before after : List Notification) (none_before : exists_row (has_id id) before ≡ false)
    (none_after : exists_row (has_id id) after ≡ false) where
  abbrev Email : Notification → Type 0
  Email = IsEmail payload id created_at max_attempts

  fresh :
      (env : Env) (n : Notification)
      → Email n
      → is_over n ≡ false
      → created_at ≤ env.now
      → created_at ≤ env.clock
      → IsFresh env n before after
  unfolding validate_delivery_eligibility
  fresh env n email going now_after clock_after = record {
    none_before = rw email.kept.0 none_before;
    none_after = rw email.kept.0 none_after;
    eligible = ground (arith, email.alive, going);
    checked = email.checked;
    now_after = rw email.kept.1 now_after;
    clock_after = rw email.kept.1 clock_after;
  }

  -- The row after a delivery is one for which the next delivery can be told again.
  settled-IsEmail :
      (status : DeliveryStatus) (env : Env) (n : Notification) (result : ProviderResult)
      → Email n
      → IsFresh env n before after
      → Email (settled status env n result)
        × ((settled status env n result).attempt_count ≡ n.attempt_count + 1)
  settled-IsEmail DeliveryStatus.success env n result email is_fresh = (
    record {
      kept = email.kept;
      checked = sent_check env n result before after is_fresh;
      alive = refl;
    },
    refl,
  )
  settled-IsEmail DeliveryStatus.permanent_failure env n result email is_fresh = (
    record {
      kept = email.kept;
      checked = failed_check env n result before after is_fresh _;
      alive = refl;
    },
    refl,
  )
  settled-IsEmail DeliveryStatus.temporary_failure env n result email is_fresh =
      elim (Bool-cases (leb n.max_attempts (n.attempt_count + 1))) [
        | inl last ↦ rw last (
          record {
            kept = email.kept;
            checked =
                failed_check env n result before after is_fresh
                  (message_or "Maximum retry attempts reached." result.error_message);
            alive = refl;
          },
          refl,
        )
        | inr more ↦ rw more (
          record {
            kept = email.kept;
            checked = retry_check env n result before after is_fresh (env.draw (delay_bound env n));
            alive = ground (arith, more);
          },
          refl,
        )
      ]

  -- The database after a delivery that is not refused.
  abbrev written : Env → Notification → ProviderResult → Database → Database
  written env n result db = record db {
    notifications = before ++ settled result.status env n result ∷ after;
    delivery_attempts =
        db.delivery_attempts
        ++ new_attempt env.attempt_id env.now n.id (n.attempt_count + 1) result ∷ [];
  }

  delivered :
      (sender : MailRelayConfig) (m : Message) (n : Notification) (w : Worker)
      → Email n
      → is_over n ≡ false
      → created_at ≤ m.env.now
      → created_at ≤ m.env.clock
      → w.db.notifications ≡ before ++ n ∷ after
      → exists_row (is_later_attempt id n.attempt_count) w.db.delivery_attempts ≡ false
      → exists_row (has_attempt_id m.env.attempt_id) w.db.delivery_attempts ≡ false
      → deliver_notification m.env sender m.post id w ≡ (
        ok tt,
        record {
          db = written m.env n (MailRelay.send sender m.post payload) w.db;
          registry = (Registry.get EmailNotificationProviders.mailrelay w.registry).1;
        },
      )
  unfolding deliver_notification get_notification deliver_found
  delivered sender m n w email going now_after clock_after rows later new =
      let is_fresh = fresh m.env n email going now_after clock_after in
      let result = MailRelay.send sender m.post payload in
      let free : exists_row
            (same_attempt
              (new_attempt m.env.attempt_id m.env.now n.id (n.attempt_count + 1) result))
            w.db.delivery_attempts
          ≡ false =
        unattempted w.db.delivery_attempts
          (new_attempt m.env.attempt_id m.env.now n.id (n.attempt_count + 1) result) n.attempt_count
          refl (rw email.kept.0 later) new in
      let found : find_first (has_id id) w.db.notifications ≡ some n =
        rw rows
          (find_first_in_place id before after n none_before (rw email.kept.0 (==_refl id))) in
      let place : record w.db { notifications = before ++ n ∷ after } ≡ w.db = rw rows refl in
      let stored : persist_delivery_result m.env n result w.db
          ≡ (ok tt, written m.env n result w.db) =
        subst (λ d. persist_delivery_result m.env n result d ≡ (ok tt, written m.env n result w.db))
          place (persist_delivery_result_lem m.env n result before after is_fresh w.db free) in
      let sent =
        sent_by_mailrelay sender m.post n payload w.registry is_fresh.eligible email.kept.3
          email.kept.4 in
      rw (found, deliver_found, sent, stored)
        (ap
          (λ (x : Result ProviderResult × EmailProviderRegistry).
            (ok tt, record { db = written m.env n result w.db; registry = x.1 }))
          sent)

  -- A delivery of a notification that is over changes nothing.
  refused :
      (sender : MailRelayConfig) (m : Message) (n : Notification) (w : Worker)
      → Email n
      → is_over n ≡ true
      → w.db.notifications ≡ before ++ n ∷ after
      → (deliver_notification m.env sender m.post id w).1 ≡ w
  refused sender m n w email over rows =
      let found : find_first (has_id id) w.db.notifications ≡ some n =
        rw rows
          (find_first_in_place id before after n none_before (rw email.kept.0 (==_refl id))) in
      ap (λ x. x.1)
        (deliver_notification_refused m.env sender m.post id n w found (ground (arith, over)))

  all_refused :
      (sender : MailRelayConfig) (ms : List Message) (n : Notification) (w : Worker)
      → Email n
      → is_over n ≡ true
      → w.db.notifications ≡ before ++ n ∷ after
      → deliver_messages sender id ms w ≡ w
  unfolding deliver_messages
  all_refused sender [] n w email over rows = refl
  all_refused sender (m ∷ ms) n w email over rows =
      ap (deliver_messages sender id ms) (refused sender m n w email over rows)
      ∙ all_refused sender ms n w email over rows

  -- What the messages lead to.
  abbrev pub Ended : Worker → Type 0
  Ended w =
      (n : Notification) × (w.db.notifications ≡ before ++ n ∷ after)
      × (n.id ≡ id)
      × (is_over n ≡ true)
      × (n.attempt_count ≤ max_attempts)

  Ended-now :
      (n : Notification) (w : Worker)
      → Email n
      → is_over n ≡ true
      → w.db.notifications ≡ before ++ n ∷ after
      → Ended w
  unfolding notification_check
  Ended-now n w email over rows =
      (n, rows, email.kept.0, over, ground (arith, email.checked, email.kept.2))

  -- An email notification for MailRelay that meets its constraints, is alone with its identifier, and is
  -- over or has attempts left, is sent or failed after as many messages as it had attempts left, whatever
  -- MailRelay answers to each; it has no more attempts than its limit, and no other notification has
  -- changed. No message comes before the notification was created, and the rows of the attempts are new.
  pub deliver_messages_end :
      (sender : MailRelayConfig) (ms : List Message) (n : Notification) (w : Worker)
      → Email n
      → w.db.notifications ≡ before ++ n ∷ after
      → exists_row (is_later_attempt id n.attempt_count) w.db.delivery_attempts ≡ false
      → AreNew ms w.db.delivery_attempts
      → All (λ m. (created_at ≤ m.env.now) × (created_at ≤ m.env.clock)) ms
      → max_attempts ≤ n.attempt_count + length ms
      → Ended (deliver_messages sender id ms w)
  unfolding deliver_messages AreNew
  deliver_messages_end sender [] n w email rows later new times enough =
      Ended-now n w email (ground (arith, email.alive, email.kept.2, enough)) rows
  deliver_messages_end sender (m ∷ ms) n w email rows later new times enough =
      elim (Bool-cases (is_over n)) [
        | inl over ↦
            subst Ended (sym (all_refused sender (m ∷ ms) n w email over rows))
              (Ended-now n w email over rows)
        | inr going ↦
            let result = MailRelay.send sender m.post payload in
            let is_fresh = fresh m.env n email going times.0.0 times.0.1 in
            let after_it = settled-IsEmail result.status m.env n result email is_fresh in
            let x = new_attempt m.env.attempt_id m.env.now n.id (n.attempt_count + 1) result in
            let w' : Worker = record {
              db = written m.env n result w.db;
              registry = (Registry.get EmailNotificationProviders.mailrelay w.registry).1;
            } in
            let rest : Ended (deliver_messages sender id ms w') =
              deliver_messages_end sender ms (settled result.status m.env n result) w' after_it.0
                refl
                (rw after_it.1
                  (attempts_after w.db.delivery_attempts x id n.attempt_count refl later))
                (AreNew-after ms w.db.delivery_attempts x new.2 new.1) times.1
                (rw after_it.1 (omega (arith, enough))) in
            subst (λ v. Ended (deliver_messages sender id ms v.1))
              (sym (delivered sender m n w email going times.0.0 times.0.1 rows later new.0)) rest
      ]
