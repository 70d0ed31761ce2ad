-- ===== src/Notification/Queries.antt =====
-- app/modules/notifications/db: the statements on the tables notifications and delivery_attempts,
-- under the constraints of app/infra/db/schemas/02-constraints/notifications. `now` is the instant
-- that `now()` gives in the statement's transaction, and a drawn UUID is an argument.
-- Rows that a foreign key refers to are never deleted, so foreign keys are not checked here.
pub mod Cases
use relays.Prelude.{
  ℕ, ◌+◌, String, str_eq, Uuid, Time, Bool, true, false, not, ◌&&◌, ◌||◌, Option, none, some, List,
  ltb, leb, ◌==◌, is_some,
}
use relays.Core.Result.{raise, ok, Action, or_raise, pure, ◌>>=◌, runtime_error}
use relays.Table.{find_first, update_returning, insert_returning}
use relays.Notification.Model.{
  NotificationState, NotificationChannel, EmailNotificationProviders, Payload, Metadata,
  ProviderResult, Notification, DeliveryAttempt,
}

abbrev pub is_created : NotificationState → Bool
is_created NotificationState.created = true
is_created _ = false

abbrev pub is_queued : NotificationState → Bool
is_queued NotificationState.queued = true
is_queued _ = false

abbrev pub is_sent : NotificationState → Bool
is_sent NotificationState.sent = true
is_sent _ = false

abbrev pub is_failed : NotificationState → Bool
is_failed NotificationState.failed = true
is_failed _ = false

-- A nullable instant is missing, or not before another.
abbrev null_or_from : Time → Option Time → Bool
null_or_from start none = true
null_or_from start (some t) = leb start t

abbrev same : Bool → Bool → Bool
same true b = b
same false b = not b

-- The CHECK constraints of the table; those on the channel, the provider and the payload's form
-- hold by the types of the columns.
unfoldable pub notification_check : Notification → Bool
notification_check n =
    ltb 0 n.max_attempts
    && leb n.attempt_count n.max_attempts
    && null_or_from n.created_at n.last_attempt_at
    && null_or_from n.created_at n.sent_at
    && leb n.created_at n.updated_at
    && not (str_eq n.recipient "")
    && null_or_from n.created_at n.queued_at
    && null_or_from n.created_at n.next_retry_at
    && same (is_sent n.state) (is_some n.sent_at)
    && (not (is_sent n.state || is_failed n.state) || not (is_some n.next_retry_at))

abbrev pub has_id : Uuid → Notification → Bool
has_id id n = n.id == id

-- `id UUID PRIMARY KEY`
abbrev pub same_notification : Notification → Notification → Bool
same_notification n m = m.id == n.id

-- The defaults of the columns that the INSERT leaves out are those of 01-tables.
abbrev pub new_notification :
    (id : Uuid) (now : Time) (workspace_id api_key_id : Uuid)
    → NotificationChannel
    → EmailNotificationProviders
    → (recipient : String) → Payload
    → Option Metadata
    → Notification
new_notification id now workspace_id api_key_id channel provider recipient payload metadata =
    record {
      id = id;
      workspace_id = workspace_id;
      api_key_id = api_key_id;
      channel = channel;
      provider = provider;
      recipient = recipient;
      payload = payload;
      metadata = metadata;
      state = NotificationState.created;
      attempt_count = 0;
      max_attempts = 5;
      next_retry_at = none;
      queued_at = none;
      last_attempt_at = none;
      last_error = none;
      sent_at = none;
      created_at = now;
      updated_at = now;
    }

unfoldable pub create_notification :
    (id : Uuid) (now : Time) (workspace_id api_key_id : Uuid)
    → NotificationChannel
    → EmailNotificationProviders
    → (recipient : String) → Payload
    → Option Metadata
    → Action (List Notification) Notification
create_notification id now workspace_id api_key_id channel provider recipient payload metadata =
    insert_returning notification_check same_notification
      (new_notification id now workspace_id api_key_id channel provider recipient payload metadata)

unfoldable pub get_notification : Uuid → Action (List Notification) (Option Notification)
get_notification id t = (ok (find_first (has_id id) t), t)

abbrev pub queued_row : Time → Notification → Notification
queued_row now n = record n {
  state = NotificationState.queued;
  queued_at = some now;
  updated_at = now;
}

unfoldable pub mark_queued : Time → Uuid → Action (List Notification) (Option Notification)
mark_queued now id =
    update_returning notification_check (λ n. has_id id n && is_created n.state) (queued_row now)

abbrev pub sent_row : Time → Notification → Notification
sent_row now n = record n {
  state = NotificationState.sent;
  sent_at = some now;
  last_attempt_at = some now;
  updated_at = now;
  next_retry_at = none;
}

unfoldable pub mark_sent : Time → Uuid → Action (List Notification) (Option Notification)
mark_sent now id = update_returning notification_check (has_id id) (sent_row now)

abbrev pub failed_row : Time → String → Notification → Notification
failed_row now error n = record n {
  state = NotificationState.failed;
  last_error = some error;
  last_attempt_at = some now;
  updated_at = now;
  next_retry_at = none;
}

unfoldable pub mark_failed : Time → Uuid → String → Action (List Notification) (Option Notification)
mark_failed now id error = update_returning notification_check (has_id id) (failed_row now error)

abbrev pub attempted_row : Time → Notification → Notification
attempted_row now n = record n {
  attempt_count = n.attempt_count + 1;
  last_attempt_at = some now;
  updated_at = now;
}

-- `row["attempt_count"]`, of the row that came back.
abbrev pub counted_row : Option Notification → Action (List Notification) ℕ
counted_row none = raise (runtime_error "Notification not found.")
counted_row (some row) = pure row.attempt_count

unfoldable pub increment_attempt_count : Time → Uuid → Action (List Notification) ℕ
increment_attempt_count now id =
    update_returning notification_check (has_id id) (attempted_row now) >>= counted_row

abbrev pub retry_row : Time → Time → Notification → Notification
retry_row now next_retry_at n = record n {
  state = NotificationState.queued;
  next_retry_at = some next_retry_at;
  updated_at = now;
}

unfoldable pub schedule_retry :
    Time → Uuid → Time → Action (List Notification) (Option Notification)
schedule_retry now id next_retry_at =
    update_returning notification_check (has_id id) (retry_row now next_retry_at)

-- `UNIQUE (notification_id, attempt_number)` and the primary key.
abbrev pub same_attempt : DeliveryAttempt → DeliveryAttempt → Bool
same_attempt a b =
    (b.notification_id == a.notification_id && b.attempt_number == a.attempt_number) || b.id == a.id

-- `attempt_number >= 1`
abbrev pub attempt_check : DeliveryAttempt → Bool
attempt_check a = leb 1 a.attempt_number

abbrev pub new_attempt :
    (id : Uuid) (now : Time) (notification_id : Uuid) (attempt_number : ℕ)
    → ProviderResult
    → DeliveryAttempt
new_attempt id now notification_id attempt_number result = record {
  id = id;
  notification_id = notification_id;
  attempt_number = attempt_number;
  status = result.status;
  provider = result.provider;
  error_message = result.error_message;
  provider_error_code = result.provider_error_code;
  provider_message_id = result.provider_message_id;
  raw_provider_response = result.raw_provider_response;
  created_at = now;
}

abbrev pub ignore_row : DeliveryAttempt → Action (List DeliveryAttempt) (Unit {0})
ignore_row row = pure tt

-- The caller hands over the fields of a `ProviderResult` one by one.
unfoldable pub record_delivery_attempt :
    (id : Uuid) (now : Time) (notification_id : Uuid) (attempt_number : ℕ)
    → ProviderResult
    → Action (List DeliveryAttempt) (Unit {0})
record_delivery_attempt id now notification_id attempt_number result =
    insert_returning attempt_check same_attempt
      (new_attempt id now notification_id attempt_number result)
    >>= ignore_row
