-- ===== src/Core/Idempotency.antt =====
-- app/core/idempotency.py: the statements on the table idempotency_keys (app/infra/db/schemas). `now`
-- is the transaction's instant, and `serial` the next value of the table's sequence.
use relays.Prelude.{
  ℕ, ◌+◌, ◌*◌, String, str_eq, Uuid, Digest, Time, Bool, ◌&&◌, Option, none, some, List, [], ◌∷◌,
  ◌++◌, ◌==◌, if◌then◌else◌,
}
use relays.Core.Result.{ok, Action}
use relays.Table.{find_first, exists_row, update_where}

pub data IdempotencyState : Type 0 where
  processing completed failed : IdempotencyState

pub record IdempotencyKey : Type 0 where
  pub id : ℕ
  pub idempotency_key : Uuid
  pub request_hash : Digest
  pub api_key_id : Uuid
  pub method : String
  pub path : String
  pub notification_id : Option Uuid
  pub status : IdempotencyState
  pub created_at : Time
  pub updated_at : Time
  pub expires_at : Time

-- `UNIQUE (api_key_id, method, path, idempotency_key)`, as the condition of the SELECT too.
abbrev pub has_key : Uuid → Uuid → String → String → IdempotencyKey → Bool
has_key idem_key api_key_id method path r =
    r.idempotency_key == idem_key
    && r.api_key_id == api_key_id
    && str_eq r.method method
    && str_eq r.path path

abbrev pub processing_key :
    (serial : ℕ) → Time → Uuid → Digest → Uuid → String → String → IdempotencyKey
processing_key serial now idem_key request_hash api_key_id method path = record {
  id = serial;
  idempotency_key = idem_key;
  request_hash = request_hash;
  api_key_id = api_key_id;
  method = method;
  path = path;
  notification_id = none;
  status = IdempotencyState.processing;
  created_at = now;
  updated_at = now;
  expires_at = now + 24 * 60 * 60;
}

-- INSERT … ON CONFLICT DO NOTHING RETURNING *: no row comes back if the key is taken.
unfoldable pub insert_idem_keys :
    (serial : ℕ)
    → Time
    → Uuid
    → Digest
    → Uuid
    → String
    → String
    → Action (List IdempotencyKey) (Option IdempotencyKey)
insert_idem_keys serial now idem_key request_hash api_key_id method path t =
    if exists_row (has_key idem_key api_key_id method path) t
    then (ok none, t)
    else let row = processing_key serial now idem_key request_hash api_key_id method path in
      (ok (some row), t ++ row ∷ [])

unfoldable pub get_idem_keys :
    Uuid → Uuid → String → String → Action (List IdempotencyKey) (Option IdempotencyKey)
get_idem_keys idem_key api_key_id method path t =
    (ok (find_first (has_key idem_key api_key_id method path) t), t)

abbrev pub completed_key : Uuid → IdempotencyKey → IdempotencyKey
completed_key notification_id r = record r {
  status = IdempotencyState.completed;
  notification_id = some notification_id;
}

unfoldable pub complete_idempotency :
    (idem_id : ℕ) → (notification_id : Uuid) → Action (List IdempotencyKey) (Unit {0})
complete_idempotency idem_id notification_id t =
    (ok tt, update_where (λ r. r.id == idem_id) (completed_key notification_id) t)
