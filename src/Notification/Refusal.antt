-- ===== src/Notification/Refusal.antt =====
-- Deliveries that are refused before anything is sent.
use relays.Prelude.{String, ◌≡◌, true, ◌||◌, some, arith, Uuid, leb, if◌then◌else◌}
use relays.Core.Result.{err, permanent_failure}
use relays.Table.{find_first}
use relays.Notification.Model.{Notification}
use relays.Notification.Queries.{is_sent, is_failed, has_id, get_notification}
use relays.Notification.Provider.MailRelay.{MailRelayConfig, MailRelaySendRequest, HttpOutcome}
use relays.Notification.Delivery.{
  Env, Worker, deliver_notification, deliver_found, attempt_delivery, validate_delivery_eligibility,
}

abbrev pub terminal_message : Notification → String
terminal_message n =
    if is_sent n.state || is_failed n.state
    then "Notification has already reached a terminal state."
    else "Notification has exhausted all retry attempts."

-- A message for a notification that was read as sent or failed, or with no attempt left, ends in a
-- permanent failure: nothing is sent, no provider is made or configured, and nothing is written.
pub deliver_notification_refused :
    (env : Env) (sender : MailRelayConfig) (post : MailRelaySendRequest → HttpOutcome) (id : Uuid)
    (n : Notification) (w : Worker)
    → find_first (has_id id) w.db.notifications ≡ some n
    → (is_sent n.state || is_failed n.state || leb n.max_attempts n.attempt_count) ≡ true
    → deliver_notification env sender post id w ≡ (err (permanent_failure (terminal_message n)), w)
unfolding deliver_notification get_notification deliver_found attempt_delivery
    validate_delivery_eligibility
deliver_notification_refused env sender post id n w found over = rw found (ground arith)
