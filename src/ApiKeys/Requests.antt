-- ===== src/ApiKeys/Requests.antt =====
-- The bodies of app/modules/api_keys: schemas/validators.py, schemas/request.py and schemas/response.py,
-- the ordered list of db/api_keys_queries.py, and the routes that take or give them.
pub mod Accepted
use relays.Prelude.{
  ℕ, zero, suc, ◌+◌, ◌-◌, ◌*◌, ◌^◌, ◌≤◌, ◌<◌, min, String, ◌≡◌, refl, sym, ap, subst, ◌∙◌, ◌≢◌, ◌⊎◌,
  inl, inr, Bool, true, false, not, ◌&&◌, ◌||◌, Option, none, some, List, [], ◌∷◌, ◌++◌, map, arith,
  str_eq, Uuid, Digest, Time, ltb, leb, ◌==◌, if◌then◌else◌, Bool-cases, Option-cases, ==_refl,
  is_some, map_option, All, length, take, All-append, All-map, length-append,
}
use relays.Core.Result.{Result, ok, err, Action, value_error}
use relays.Table.{select_where}
use relays.Table.Order.{order_by}
use relays.Text.{Unicode, is_nil, strip}
use relays.ApiKeys.{ApiKey, ApiKeyStatus, create_api_key_route}
use relays.Auth.Validators.{request_field}
use relays.Auth.Routes.{◌then◌, with_body, answering}

-- An instant as it was sent, with a time zone or without.
pub data SentInstant : Type 0 where
  aware : Time → SentInstant
  naive : Time → SentInstant

pub record KeyRequest : Type 0 where
  pub name : List ℕ
  pub expires_at : Option SentInstant

pub record KeyBody : Type 0 where
  pub name : List ℕ
  pub expires_at : Option Time

abbrev pub checked_key_name : List ℕ → Result (List ℕ)
checked_key_name value =
    if is_nil value
    then err (value_error "API-Key Name cannot be empty")
    else if ltb 100 (length value)
    then err (value_error "API-Key Name cannot exceed 100 characters")
    else ok value

unfoldable pub validate_key_name : Unicode → List ℕ → Result (List ℕ)
validate_key_name u value = checked_key_name (strip u.is_space value)

unfoldable pub validate_expires_at : (clock : Time) → Option SentInstant → Result (Option Time)
validate_expires_at clock none = ok none
validate_expires_at clock (some (naive t)) = err (value_error "expires_at must be timezone-aware")
validate_expires_at clock (some (aware t)) =
    if leb t clock then err (value_error "expires_at must be a future timestamp") else ok (some t)

-- The limits of `Field` on the length of the name are not repeated here.
unfoldable pub key_body : Unicode → (clock : Time) → KeyRequest → Result KeyBody
key_body u clock b = request_field "body.name" (validate_key_name u b.name) then λ name.
    request_field "body.expires_at" (validate_expires_at clock b.expires_at) then λ expires_at.
    ok (record { name = name; expires_at = expires_at })

pub record ApiKeyResponse : Type 0 where
  pub id : Uuid
  pub name : List ℕ
  pub key_prefix : List ℕ
  pub api_key : Option (List ℕ)
  pub status : ApiKeyStatus
  pub expires_at : Option Time
  pub created_at : Time
  pub revoked_at : Option Time
  pub last_used_at : Option Time
  pub updated_at : Time

pub record ApiKeyListResponse : Type 0 where
  pub id : Uuid
  pub name : List ℕ
  pub key_prefix : List ℕ
  pub status : ApiKeyStatus
  pub expires_at : Option Time
  pub last_used_at : Option Time
  pub revoked_at : Option Time
  pub created_at : Time
  pub updated_at : Time

-- The answer of the creation, which alone has the key itself.
abbrev pub created_response : (key : List ℕ) → ApiKey → Result ApiKeyResponse
created_response key k = ok (record {
  id = k.id;
  name = k.name;
  key_prefix = k.key_prefix;
  api_key = some key;
  status = k.status;
  expires_at = k.expires_at;
  created_at = k.created_at;
  revoked_at = none;
  last_used_at = none;
  updated_at = k.updated_at;
})

abbrev pub list_response : ApiKey → ApiKeyListResponse
list_response k = record {
  id = k.id;
  name = k.name;
  key_prefix = k.key_prefix;
  status = k.status;
  expires_at = k.expires_at;
  last_used_at = k.last_used_at;
  revoked_at = k.revoked_at;
  created_at = k.created_at;
  updated_at = k.updated_at;
}

-- The creation from the body as it was sent; `key` is the drawn key.
unfoldable pub create_from_request :
    Unicode
    → (clock : Time)
    → (sha512 : List ℕ → Digest) (key : List ℕ) (id : Uuid) (now : Time)
      (workspace_id user_id : Uuid)
    → KeyRequest
    → Action (List ApiKey) ApiKeyResponse
create_from_request u clock sha512 key id now workspace_id user_id b =
    with_body (key_body u clock b) (λ v.
      answering (created_response key)
        (create_api_key_route sha512 key id now workspace_id user_id v.name v.expires_at))

-- ORDER BY created_at DESC
abbrev pub newer : ApiKey → ApiKey → Bool
newer k l = leb l.created_at k.created_at

unfoldable pub list_workspace_api_keys : (workspace_id : Uuid) → List ApiKey → List ApiKey
list_workspace_api_keys workspace_id t =
    order_by newer (select_where (λ k. k.workspace_id == workspace_id) t)

unfoldable pub list_api_keys_route : (workspace_id : Uuid) → List ApiKey → List ApiKeyListResponse
list_api_keys_route workspace_id t = map list_response (list_workspace_api_keys workspace_id t)
