-- ===== src/Notification/Delivery.antt =====
-- app/modules/notifications/workflows/notification_delivery.py: what a worker does with one message
-- of the queue. A delivery reads the notification, calls the provider, and writes the result in a
-- transaction of its own; other workers may run between the two.
pub mod Cases
use relays.Prelude.{
  ◌≡◌, ap, ℕ, String, str_eq, Uuid, Time, ◌||◌, Option, none, some, List, leb, if◌then◌else◌,
}
use relays.Core.Result.{
  Result, ok, err, Action, pure, raise, transaction, ◌>>=◌, ◌>>◌, permanent_failure,
  validation_error,
}
use relays.Notification.Model.{
  DeliveryStatus, Payload, email_payload, EmailPayload, ProviderResult, Notification,
  DeliveryAttempt, Database,
}
use relays.Notification.Queries.{
  is_sent, is_failed, get_notification, increment_attempt_count, record_delivery_attempt, mark_sent,
  mark_failed, schedule_retry,
}
use relays.Notification.RetryPolicy.{RetryConfig, calculate_next_retry_time}
use relays.Notification.Provider.Fake
use relays.Notification.Provider.Fake.{FakeProvider}
use relays.Notification.Provider.MailRelay
use relays.Notification.Provider.MailRelay.{MailRelayConfig, MailRelaySendRequest, HttpOutcome}
use relays.Notification.Provider.Registry
use relays.Notification.Provider.Registry.{
  EmailProvider, EmailProviderRegistry, mailrelay_email, fake_email,
}

module _ {A : Type 0} where
  -- A statement on one table, run on the database.
  unfoldable pub on_notifications : Action (List Notification) A → Action Database A
  on_notifications m db = let (r, t) = m db.notifications in (r, record db { notifications = t })

  unfoldable pub on_attempts : Action (List DeliveryAttempt) A → Action Database A
  on_attempts m db = let (r, t) = m db.delivery_attempts in (r, record db { delivery_attempts = t })

module _ {A : Type 0} {r : Result A} where
  -- A statement on one table, given what it does to that table.
  pub on_notifications_lem :
      (m : Action (List Notification) A) (db : Database) {t : List Notification}
      → m db.notifications ≡ (r, t)
      → on_notifications m db ≡ (r, record db { notifications = t })
  unfolding on_notifications
  on_notifications_lem m db e =
      ap (λ (x : Result A × List Notification). (x.0, record db { notifications = x.1 })) e

  pub on_attempts_lem :
      (m : Action (List DeliveryAttempt) A) (db : Database) {t : List DeliveryAttempt}
      → m db.delivery_attempts ≡ (r, t)
      → on_attempts m db ≡ (r, record db { delivery_attempts = t })
  unfolding on_attempts
  on_attempts_lem m db e =
      ap (λ (x : Result A × List DeliveryAttempt). (x.0, record db { delivery_attempts = x.1 })) e

-- What a delivery takes from outside: the configured delays, the transaction's `now()`, the clock and
-- the random draw of the retry policy, and the UUID of the attempt's row.
pub record Env : Type 0 where
  pub config : RetryConfig
  pub now : Time
  pub clock : Time
  pub draw : ℕ → ℕ
  pub attempt_id : Uuid

unfoldable pub validate_delivery_eligibility : Notification → Result (Unit {0})
validate_delivery_eligibility notification =
    if is_sent notification.state || is_failed notification.state
    then err (permanent_failure "Notification has already reached a terminal state.")
    else if leb notification.max_attempts notification.attempt_count
    then err (permanent_failure "Notification has exhausted all retry attempts.")
    else ok tt

-- Python's `a or b` on an optional text: the empty text is false too.
abbrev pub or_text : Option String → String → String
or_text none fallback = fallback
or_text (some text) fallback = if str_eq text "" then fallback else text

abbrev pub skip_row : Option Notification → Action Database (Unit {0})
skip_row row = pure tt

-- A statement whose row the caller does not look at.
unfoldable pub execute :
    Action (List Notification) (Option Notification) → Action Database (Unit {0})
execute m = on_notifications m >>= skip_row

-- The branch of a temporary failure. `notification` is the row as it was read before the send.
unfoldable pub retry_or_fail :
    Env → Notification → ProviderResult → (attempt_number : ℕ) → Action Database (Unit {0})
retry_or_fail env notification result attempt_number =
    if leb notification.max_attempts attempt_number
    then execute (
        mark_failed env.now notification.id
          (or_text result.error_message "Maximum retry attempts reached."))
    else elim (calculate_next_retry_time env.config env.clock env.draw attempt_number) [
      | err e ↦ raise e
      | ok next_retry_at ↦ execute (schedule_retry env.now notification.id next_retry_at)
    ]

-- The `match` on the status of the result.
unfoldable pub settle :
    DeliveryStatus
    → Env
    → Notification
    → ProviderResult
    → (attempt_number : ℕ) → Action Database (Unit {0})
unfolding retry_or_fail
settle DeliveryStatus.success env notification result attempt_number =
    execute (mark_sent env.now notification.id)
settle DeliveryStatus.permanent_failure env notification result attempt_number =
    execute
      (mark_failed env.now notification.id (or_text result.error_message "Unknown Provider Error"))
settle DeliveryStatus.temporary_failure env notification result attempt_number =
    retry_or_fail env notification result attempt_number

-- The body of the transaction, once the counter has been raised to `attempt_number`.
unfoldable pub persist_attempt :
    Env → Notification → ProviderResult → (attempt_number : ℕ) → Action Database (Unit {0})
persist_attempt env notification result attempt_number =
    on_attempts
      (record_delivery_attempt env.attempt_id env.now notification.id attempt_number result)
    >>= λ _. settle result.status env notification result attempt_number

unfoldable pub persist_delivery_result :
    Env → Notification → ProviderResult → Action Database (Unit {0})
persist_delivery_result env notification result = transaction (
    on_notifications (increment_attempt_count env.now notification.id)
    >>= persist_attempt env notification result)

-- `EmailPayload.model_validate` on a stored payload: the fields of another channel's payload are
-- missing and forbidden.
unfoldable pub model_validate : Payload → Result EmailPayload
model_validate (email_payload p) = ok p
model_validate _ = err validation_error

-- The send through the provider that the registry gives, the fake one configured first. The second
-- part is the registry afterwards.
unfoldable pub configured :
    Notification → EmailProvider × EmailProviderRegistry → EmailProvider × EmailProviderRegistry
configured notification (mailrelay_email p, registry) = (mailrelay_email p, registry)
configured notification (fake_email p, registry) =
    let p' = Fake.configure p notification in (fake_email p', record registry { fake = some p' })

unfoldable pub send_by :
    MailRelayConfig
    → (MailRelaySendRequest → HttpOutcome)
    → EmailProvider
    → EmailPayload
    → Result ProviderResult
send_by sender post (mailrelay_email p) payload = ok (MailRelay.send sender post payload)
send_by sender post (fake_email p) payload = Fake.send p payload

-- A worker process: the database, and its own registry of providers.
pub record Worker : Type 0 where
  pub db : Database
  pub registry : EmailProviderRegistry

-- The part of `deliver_notification` up to the provider's answer, for a notification that was found.
unfoldable pub attempt_delivery :
    MailRelayConfig
    → (MailRelaySendRequest → HttpOutcome)
    → Notification
    → Action EmailProviderRegistry ProviderResult
unfolding validate_delivery_eligibility
attempt_delivery sender post notification registry =
    elim (validate_delivery_eligibility notification) [
      | err e ↦ (err e, registry)
      | ok _ ↦ elim (model_validate notification.payload) [
        | err e ↦ (err e, registry)
        | ok payload ↦
            let (provider, registry') =
              configured notification (Registry.get notification.provider registry) in
            (send_by sender post provider payload, registry')
      ]
    ]

unfoldable pub deliver_found :
    Env
    → MailRelayConfig
    → (MailRelaySendRequest → HttpOutcome)
    → Option Notification
    → Action Worker (Unit {0})
deliver_found env sender post none w = (ok tt, w)
deliver_found env sender post (some notification) w =
    let (answer, registry') = attempt_delivery sender post notification w.registry in
    elim answer [
      | err e ↦ (err e, record w { registry = registry' })
      | ok result ↦
          let (r, db') = persist_delivery_result env notification result w.db in
          (r, record { db = db'; registry = registry' })
    ]

unfoldable pub deliver_notification :
    Env → MailRelayConfig → (MailRelaySendRequest → HttpOutcome) → Uuid → Action Worker (Unit {0})
unfolding deliver_found
deliver_notification env sender post notification_id w =
    let (r, _) = get_notification notification_id w.db.notifications in
    elim r [ err e ↦ (err e, w) | ok found ↦ deliver_found env sender post found w ]
