-- ===== src/Notification/Completion.antt =====
-- Messages for one notification, one after another: how many it takes until it is sent or failed.
pub mod Ends
use relays.Prelude.{
  ℕ, zero, suc, ◌+◌, ◌-◌, ◌*◌, ◌^◌, ◌≤◌, ◌<◌, min, String, ◌≡◌, refl, sym, ap, subst, ◌∙◌, ◌≢◌, ◌⊎◌,
  inl, inr, Bool, true, false, not, ◌&&◌, ◌||◌, Option, none, some, List, [], ◌∷◌, ◌++◌, map, arith,
  str_eq, Uuid, Digest, Time, ltb, leb, ◌==◌, if◌then◌else◌, Bool-cases, Option-cases, ==_refl,
  is_some, map_option, All, length, take, All-append, All-map, length-append,
}
use relays.Core.Result.{ok, Result}
use relays.Table.{find_first, exists_row}
use relays.Notification.Model.{
  Notification, EmailPayload, EmailNotificationProviders, email_payload, DeliveryStatus,
  ProviderResult, DeliveryAttempt, Database,
}
use relays.Notification.Queries.{
  notification_check, has_id, is_sent, is_failed, get_notification, new_attempt, same_attempt,
}
use relays.Notification.RetryPolicy.{capped_delay}
use relays.Notification.Provider.MailRelay
use relays.Notification.Provider.MailRelay.{MailRelayConfig, MailRelaySendRequest, HttpOutcome}
use relays.Notification.Provider.Registry
use relays.Notification.Provider.Registry.{EmailProviderRegistry}
use relays.Notification.Delivery.{
  Env, Worker, or_text, validate_delivery_eligibility, model_validate, configured, send_by,
  attempt_delivery, deliver_found, deliver_notification, persist_delivery_result,
}
use relays.Notification.Settlement.{
  IsFresh, settled, sent_check, failed_check, retry_check, persist_delivery_result_lem,
}
use relays.Notification.Refusal.{deliver_notification_refused}

-- A message of the queue that comes to a worker: what its delivery takes from outside, and what
-- MailRelay answers to a send.
pub record Message : Type 0 where
  pub env : Env
  pub post : MailRelaySendRequest → HttpOutcome

unfoldable pub deliver_messages : MailRelayConfig → Uuid → List Message → Worker → Worker
deliver_messages sender id [] w = w
deliver_messages sender id (m ∷ ms) w =
    deliver_messages sender id ms (deliver_notification m.env sender m.post id w).1

abbrev pub is_over : Notification → Bool
is_over n = is_sent n.state || is_failed n.state

-- What the deliveries of an email notification for MailRelay leave as it is.
abbrev pub Keeps : EmailPayload → Uuid → (created_at max_attempts : ℕ) → Notification → Type 0
Keeps payload id created_at max_attempts n =
    (n.id ≡ id)
    × (n.created_at ≡ created_at)
    × (n.max_attempts ≡ max_attempts)
    × (n.payload ≡ email_payload payload)
    × (n.provider ≡ EmailNotificationProviders.mailrelay)

-- Such a notification, which is over or has an attempt left.
pub record IsEmail (payload : EmailPayload) (id : Uuid) (created_at max_attempts : ℕ)
    (n : Notification) : Type 0 where
  pub kept : Keeps payload id created_at max_attempts n
  pub checked : notification_check n ≡ true
  pub alive : (is_over n || ltb n.attempt_count n.max_attempts) ≡ true

-- Recorded attempts of a notification with a number above `k`.
abbrev pub is_later_attempt : Uuid → ℕ → DeliveryAttempt → Bool
is_later_attempt id k a = a.notification_id == id && ltb k a.attempt_number

abbrev pub has_attempt_id : Uuid → DeliveryAttempt → Bool
has_attempt_id id a = a.id == id

-- The messages' new rows have identifiers of their own.
unfoldable pub AreNew : List Message → List DeliveryAttempt → Type 0
AreNew [] t = Unit
AreNew (m ∷ ms) t =
    (exists_row (has_attempt_id m.env.attempt_id) t ≡ false)
    × All (λ later. (m.env.attempt_id == later.env.attempt_id) ≡ false) ms
    × AreNew ms t

pub unattempted :
    (t : List DeliveryAttempt) (x : DeliveryAttempt) (k : ℕ)
    → x.attempt_number ≡ k + 1
    → exists_row (is_later_attempt x.notification_id k) t ≡ false
    → exists_row (has_attempt_id x.id) t ≡ false
    → exists_row (same_attempt x) t ≡ false
unfolding exists_row
unattempted [] x k next free free' = refl
unattempted (a ∷ t) x k next free free' =
    ground (arith, next, free, free', unattempted t x k next (ground arith) (ground arith))

pub attempts_after :
    (t : List DeliveryAttempt) (x : DeliveryAttempt) (id : Uuid) (k : ℕ)
    → x.attempt_number ≡ k + 1
    → exists_row (is_later_attempt id k) t ≡ false
    → exists_row (is_later_attempt id (k + 1)) (t ++ x ∷ []) ≡ false
unfolding exists_row
attempts_after [] x id k next free = ground (arith, next)
attempts_after (a ∷ t) x id k next free =
    ground (arith, free, attempts_after t x id k next (ground arith))

free_after :
    (t : List DeliveryAttempt) (x : DeliveryAttempt) (id : Uuid)
    → exists_row (has_attempt_id id) t ≡ false
    → (x.id == id) ≡ false
    → exists_row (has_attempt_id id) (t ++ x ∷ []) ≡ false
unfolding exists_row
free_after [] x id free other = ground arith
free_after (a ∷ t) x id free other = ground (arith, free, free_after t x id (ground arith) other)

pub AreNew-after :
    (ms : List Message) (t : List DeliveryAttempt) (x : DeliveryAttempt)
    → AreNew ms t
    → All (λ later. (x.id == later.env.attempt_id) ≡ false) ms
    → AreNew ms (t ++ x ∷ [])
unfolding AreNew
AreNew-after [] t x new other = tt
AreNew-after (m ∷ ms) t x new other =
    (free_after t x m.env.attempt_id new.0 other.0, new.1, AreNew-after ms t x new.2 other.1)
