-- ===== src/Notification/Submission/Replay.antt =====
-- Submissions with a key that was used before: the idempotency of notification_submission.py.
use relays.Prelude.{
  ◌≡◌, refl, Uuid, Digest, Bool, false, Option, none, some, List, arith, ◌==◌, if◌then◌else◌, ◌∙◌,
  ap,
}
use relays.Core.Result.{Result, ok, err, Action}
use relays.Core.Triple.{bind_ok}
use relays.Core.Idempotency.{IdempotencyKey, has_key, insert_idem_keys, get_idem_keys}
use relays.Table.{find_first}
use relays.Table.Laws.{exists_row-find_first}
use relays.Notification.Model.{NotificationRequest, Notification, Database}
use relays.Notification.Queries.{has_id, get_notification}
use relays.Notification.Delivery.{on_notifications}
use relays.Notification.Submission.{
  Submit, on_idempotency_keys, http_method, notifications_path, hash_mismatch, still_processing,
  inconsistent_state, submit_existing, submit_inserted, insert_key, submit_notification,
}

-- The key of a call, as a condition on rows.
abbrev pub call_key : Submit → IdempotencyKey → Bool
call_key call = has_key call.idempotency_key call.api_key_id http_method notifications_path

abbrev pub find_notification : Database → Option Uuid → Option Notification
find_notification db none = none
find_notification db (some id) = find_first (has_id id) db.notifications

-- What a used key gives: a conflict for another request, and for the same request the notification
-- that the key was completed with, marked as not new.
abbrev pub replayed : Digest → IdempotencyKey → Option Notification → Result (Notification × Bool)
replayed hash key row =
    if key.request_hash == hash
    then elim key.notification_id [
      | none ↦ err still_processing
      | some id ↦ elim row [ none ↦ err inconsistent_state | some n ↦ ok (n, false) ]
    ]
    else err hash_mismatch

pub on_idempotency_keys_lem :
    {A : Type 0} {r : Result A} (m : Action (List IdempotencyKey) A) (db : Database)
    {t : List IdempotencyKey}
    → m db.idempotency_keys ≡ (r, t)
    → on_idempotency_keys m db ≡ (r, record db { idempotency_keys = t })
unfolding on_idempotency_keys
on_idempotency_keys_lem {A} m db e =
    ap (λ (x : Result A × List IdempotencyKey). (x.0, record db { idempotency_keys = x.1 })) e

module _ (canonical_hash : NotificationRequest → Digest) (call : Submit) (db : Database) where
  submit_existing_lem :
      (key : IdempotencyKey)
      → find_first (call_key call) db.idempotency_keys ≡ some key
      → submit_existing canonical_hash call db ≡ (
        replayed (canonical_hash call.request) key (find_notification db key.notification_id),
        db,
      )
  unfolding submit_existing on_idempotency_keys on_notifications get_idem_keys get_notification
  submit_existing_lem key found = ground (arith, found)

  insert_key_taken :
      (key : IdempotencyKey)
      → find_first (call_key call) db.idempotency_keys ≡ some key
      → insert_key canonical_hash call db.idempotency_keys ≡ (ok none, db.idempotency_keys)
  unfolding insert_key insert_idem_keys
  insert_key_taken key found =
      rw (exists_row-find_first (call_key call) db.idempotency_keys key found) refl

  -- A submission whose key was used before writes nothing, and gives what `replayed` says: the
  -- notification of the first submission for the same request, a conflict for another request.
  pub submit_replay :
      (key : IdempotencyKey)
      → find_first (call_key call) db.idempotency_keys ≡ some key
      → submit_notification canonical_hash call db ≡ (
        replayed (canonical_hash call.request) key (find_notification db key.notification_id),
        db,
      )
  unfolding submit_notification submit_inserted
  submit_replay key found =
      bind_ok (on_idempotency_keys (insert_key canonical_hash call))
        (submit_inserted canonical_hash call)
        (on_idempotency_keys_lem (insert_key canonical_hash call) db (insert_key_taken key found))
      ∙ submit_existing_lem key found

  -- The branches of a used key write nothing, whatever is found.
  pub submit_existing_unchanged : (submit_existing canonical_hash call db).1 ≡ db
  unfolding submit_existing on_idempotency_keys on_notifications get_idem_keys get_notification
  submit_existing_unchanged = ground arith
