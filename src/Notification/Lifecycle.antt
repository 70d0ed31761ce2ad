-- ===== src/Notification/Lifecycle.antt =====
-- How a row of the table notifications may change, under every statement of
-- app/modules/notifications/db and the constraints of the table.
use relays.Table.Laws.{All-update_returning}
use relays.Table.{update_returning}
use relays.Core.Triple.{Keeps, Keeps-bind}
use relays.Table.Evolve.{Evolve, Evolve-trans, Evolve-update_returning}
use relays.Prelude.{
  none, some, ◌≤◌, ◌≡◌, Time, String, true, arith, List, Bool, Uuid, All, Option, some,
}
use relays.Notification.Model.{Notification}
use relays.Notification.Queries.{
  is_created, is_sent, notification_check, queued_row, sent_row, failed_row, attempted_row,
  retry_row, counted_row, has_id, increment_attempt_count, mark_sent, mark_failed, mark_queued,
  schedule_retry,
}
use relays.Notification.Claim.{processing_row}

-- `b` is what became of the row `a`: what was submitted is unchanged, the counter has not fallen, a
-- sent notification is still sent, and one that has left `created` is not there again.
pub record Later (a b : Notification) : Type 0 where
  pub id : b.id ≡ a.id
  pub workspace_id : b.workspace_id ≡ a.workspace_id
  pub api_key_id : b.api_key_id ≡ a.api_key_id
  pub channel : b.channel ≡ a.channel
  pub provider : b.provider ≡ a.provider
  pub recipient : b.recipient ≡ a.recipient
  pub payload : b.payload ≡ a.payload
  pub max_attempts : b.max_attempts ≡ a.max_attempts
  pub created_at : b.created_at ≡ a.created_at
  pub attempts : a.attempt_count ≤ b.attempt_count
  pub sent : is_sent a.state ≡ true → is_sent b.state ≡ true
  pub left_created : is_created b.state ≡ true → is_created a.state ≡ true

pub Later-refl : (a : Notification) → Later a a
Later-refl a = ground arith

pub Later-trans : (a b c : Notification) → Later a b → Later b c → Later a c
Later-trans a b c h k = ground arith

abbrev pub Checked : Notification → Type 0
Checked n = notification_check n ≡ true

-- The constraint that a row is sent exactly if it has `sent_at`, which no statement clears, keeps a
-- sent row from any other state.
module _ (a : Notification) (before : Checked a) where
  pub Later-sent_row : (now : Time) → Later a (sent_row now a)
  Later-sent_row now = ground arith

  pub Later-attempted_row : (now : Time) → Later a (attempted_row now a)
  Later-attempted_row now = ground arith

  pub Later-failed_row :
      (now : Time) (error : String)
      → Checked (failed_row now error a)
      → Later a (failed_row now error a)
  unfolding notification_check
  Later-failed_row now error after = ground arith

  pub Later-retry_row :
      (now at : Time) → Checked (retry_row now at a) → Later a (retry_row now at a)
  unfolding notification_check
  Later-retry_row now at after = ground arith

  pub Later-queued_row : (now : Time) → Checked (queued_row now a) → Later a (queued_row now a)
  unfolding notification_check
  Later-queued_row now after = ground arith

  pub Later-processing_row :
      (now : Time) → Checked (processing_row now a) → Later a (processing_row now a)
  unfolding notification_check
  Later-processing_row now after = ground arith

-- The table grown out of `base`, with its constraints kept.
abbrev pub Grown : List Notification → List Notification → Type 0
Grown base t = Evolve Later base t × All Checked t

module _ (base : List Notification) where
  pub Grown-update_returning :
      (p : Notification → Bool) (f : Notification → Notification)
      → ((a : Notification) → Checked a → Checked (f a) → Later a (f a))
      → Keeps (Grown base) (update_returning notification_check p f)
  Grown-update_returning p f step t h = (
    Evolve-trans Later Later-trans base t _ h.0
        (Evolve-update_returning Later Later-refl notification_check p f step t h.1),
    All-update_returning Checked notification_check p f (λ r _ after _. after) t h.1,
  )

  pub Grown-increment_attempt_count :
      (now : Time) (id : Uuid) → Keeps (Grown base) (increment_attempt_count now id)
  unfolding increment_attempt_count
  Grown-increment_attempt_count now id =
      Keeps-bind (Grown base) (update_returning notification_check (has_id id) (attempted_row now))
        counted_row
        (Grown-update_returning (has_id id) (attempted_row now)
          (λ a before _. Later-attempted_row a before now))
        counted_row_keeps
    where
      counted_row_keeps : (o : Option Notification) → Keeps (Grown base) (counted_row o)
      counted_row_keeps none t h = h
      counted_row_keeps (some r) t h = h

  pub Grown-mark_sent : (now : Time) (id : Uuid) → Keeps (Grown base) (mark_sent now id)
  unfolding mark_sent
  Grown-mark_sent now id = Grown-update_returning _ _ λ a before _. Later-sent_row a before now

  pub Grown-mark_failed :
      (now : Time) (id : Uuid) (error : String) → Keeps (Grown base) (mark_failed now id error)
  unfolding mark_failed
  Grown-mark_failed now id error =
      Grown-update_returning _ _ λ a before after. Later-failed_row a before now error after

  pub Grown-schedule_retry :
      (now : Time) (id : Uuid) (at : Time) → Keeps (Grown base) (schedule_retry now id at)
  unfolding schedule_retry
  Grown-schedule_retry now id at =
      Grown-update_returning _ _ λ a before after. Later-retry_row a before now at after

  pub Grown-mark_queued : (now : Time) (id : Uuid) → Keeps (Grown base) (mark_queued now id)
  unfolding mark_queued
  Grown-mark_queued now id =
      Grown-update_returning _ _ λ a before after. Later-queued_row a before now after
