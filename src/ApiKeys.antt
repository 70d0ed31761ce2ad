-- ===== src/ApiKeys.antt =====
-- app/modules/api_keys and app/infra/guards/api_key.py: the table api_keys, the routes and the guard.
-- A text that the code takes apart (a header, a key, a name) is the list of its characters' numbers.
pub mod Guarded
pub mod Requests
use relays.Prelude.{
  ℕ, zero, suc, ◌+◌, ◌-◌, ◌*◌, ◌^◌, ◌≤◌, ◌<◌, min, String, ◌≡◌, refl, sym, ap, subst, ◌∙◌, ◌≢◌, ◌⊎◌,
  inl, inr, Bool, true, false, not, ◌&&◌, ◌||◌, Option, none, some, List, [], ◌∷◌, ◌++◌, map, arith,
  str_eq, Uuid, Digest, Time, ltb, leb, ◌==◌, if◌then◌else◌, Bool-cases, Option-cases, ==_refl,
  is_some, map_option, All, length, take, All-append, All-map, length-append,
}
use relays.Core.ErrorCode.{ErrorCode}
use relays.Core.Result.{
  Exception, Result, ok, err, Action, api_exception, value_error, pure, raise, on_unique_violation,
  transaction, ◌>>=◌,
}
use relays.Table.{find_first, select_where, update_returning, update_where, insert_returning}
use relays.Text.{same_text}

pub data ApiKeyStatus : Type 0 where
  active revoked : ApiKeyStatus

pub record ApiKey : Type 0 where
  pub id : Uuid
  pub workspace_id : Uuid
  pub created_by : Uuid
  pub name : List ℕ
  pub key_prefix : List ℕ
  pub key_hash : Digest
  pub status : ApiKeyStatus
  pub expires_at : Option Time
  pub last_used_at : Option Time
  pub revoked_at : Option Time
  pub created_at : Time
  pub updated_at : Time

abbrev pub is_active : ApiKeyStatus → Bool
is_active ApiKeyStatus.active = true
is_active ApiKeyStatus.revoked = false

-- `length(trim(name)) > 0`: some character is no space.
abbrev pub not_blank : List ℕ → Bool
not_blank [] = false
not_blank (c ∷ s) = not (c == 32) || not_blank s

unfoldable pub api_key_check : ApiKey → Bool
api_key_check k =
    not_blank k.name
    && ((is_active k.status && not (is_some k.revoked_at))
        || (not (is_active k.status) && is_some k.revoked_at))

-- The primary key, `UNIQUE (workspace_id, name)` and `UNIQUE (key_prefix)`
abbrev pub same_api_key : ApiKey → ApiKey → Bool
same_api_key k l =
    l.id == k.id
    || (l.workspace_id == k.workspace_id && same_text l.name k.name)
    || same_text l.key_prefix k.key_prefix

abbrev pub new_api_key :
    (id : Uuid) (now : Time) (workspace_id created_by : Uuid) (name key_prefix : List ℕ)
    → Digest
    → Option Time
    → ApiKey
new_api_key id now workspace_id created_by name key_prefix key_hash expires_at = record {
  id = id;
  workspace_id = workspace_id;
  created_by = created_by;
  name = name;
  key_prefix = key_prefix;
  key_hash = key_hash;
  status = ApiKeyStatus.active;
  expires_at = expires_at;
  last_used_at = none;
  revoked_at = none;
  created_at = now;
  updated_at = now;
}

unfoldable pub create_api_key :
    (id : Uuid) (now : Time) (workspace_id created_by : Uuid) (name key_prefix : List ℕ)
    → Digest
    → Option Time
    → Action (List ApiKey) ApiKey
create_api_key id now workspace_id created_by name key_prefix key_hash expires_at =
    insert_returning api_key_check same_api_key
      (new_api_key id now workspace_id created_by name key_prefix key_hash expires_at)

unfoldable pub get_api_key : Uuid → List ApiKey → Option ApiKey
get_api_key api_key_id t = find_first (λ k. k.id == api_key_id) t

unfoldable pub get_api_key_by_id_and_workspace :
    (api_key_id workspace_id : Uuid) → List ApiKey → Option ApiKey
get_api_key_by_id_and_workspace api_key_id workspace_id t =
    find_first (λ k. k.id == api_key_id && k.workspace_id == workspace_id) t

unfoldable pub get_api_key_by_prefix : (key_prefix : List ℕ) → List ApiKey → Option ApiKey
get_api_key_by_prefix key_prefix t = find_first (λ k. same_text k.key_prefix key_prefix) t

abbrev not_expired : Time → Option Time → Bool
not_expired now none = true
not_expired now (some t) = ltb now t

unfoldable pub count_active_api_keys : (now : Time) → (workspace_id : Uuid) → List ApiKey → ℕ
count_active_api_keys now workspace_id t = length (
    select_where
      (λ k. k.workspace_id == workspace_id && is_active k.status && not_expired now k.expires_at) t)

abbrev pub revoked_key : Time → ApiKey → ApiKey
revoked_key now k = record k {
  status = ApiKeyStatus.revoked;
  revoked_at = some now;
  updated_at = now;
}

abbrev pub active_key_of : (api_key_id workspace_id : Uuid) → ApiKey → Bool
active_key_of api_key_id workspace_id k =
    k.id == api_key_id && k.workspace_id == workspace_id && is_active k.status

unfoldable pub revoke_api_key :
    (now : Time) → (api_key_id workspace_id : Uuid) → Action (List ApiKey) (Option ApiKey)
revoke_api_key now api_key_id workspace_id =
    update_returning api_key_check (active_key_of api_key_id workspace_id) (revoked_key now)

unfoldable pub update_api_key_last_used :
    (now : Time) → (api_key_id : Uuid) → List ApiKey → List ApiKey
update_api_key_last_used now api_key_id =
    update_where (λ k. k.id == api_key_id)
      (λ k. record k { last_used_at = some now; updated_at = now })

-- apikey.py
unfoldable pub extract_prefix : List ℕ → Result (List ℕ)
extract_prefix api_key =
    if ltb (length api_key) 12
    then err (value_error "Invalid API key format.")
    else ok (take 12 api_key)

-- The guard. `partition(" ")` cuts at the first space; `lower` matters on the letters of `bearer` only.
abbrev pub lower : ℕ → ℕ
lower c = if leb 65 c && leb c 90 then c + 32 else c

abbrev pub before_space : List ℕ → List ℕ
before_space [] = []
before_space (c ∷ s) = if c == 32 then [] else lower c ∷ before_space s

abbrev pub after_space : List ℕ → List ℕ
after_space [] = []
after_space (c ∷ s) = if c == 32 then s else after_space s

abbrev pub bearer : List ℕ
bearer = 98 ∷ 101 ∷ 97 ∷ 114 ∷ 101 ∷ 114 ∷ []

abbrev pub unauthorized : String → Exception
unauthorized message = api_exception 401 ErrorCode.unauthorized message

-- What the guard stores in `req.state`.
pub record Caller : Type 0 where
  pub api_key_id : Uuid
  pub workspace_id : Uuid

abbrev pub expired_at : Time → Option Time → Bool
expired_at clock none = false
expired_at clock (some t) = leb t clock

abbrev pub is_empty : List ℕ → Bool
is_empty [] = true
is_empty (_ ∷ _) = false

module _ (sha512 : List ℕ → Digest) (clock : Time) where
  unfoldable pub check_api_key : (api_key : List ℕ) → Option ApiKey → Result Caller
  check_api_key api_key none = err (unauthorized "Invalid API Key")
  check_api_key api_key (some k) =
      if not (k.key_hash == sha512 api_key)
      then err (unauthorized "Invalid API Key")
      else if not (is_active k.status)
      then err (unauthorized "API Key has been revoked")
      else if expired_at clock k.expires_at
      then err (unauthorized "API Key has expired")
      else ok (record { api_key_id = k.id; workspace_id = k.workspace_id })

  unfoldable pub look_up_api_key :
      (api_key : List ℕ) → Result (List ℕ) → List ApiKey → Result Caller
  look_up_api_key api_key (err e) t = err e
  look_up_api_key api_key (ok key_prefix) t =
      check_api_key api_key (get_api_key_by_prefix key_prefix t)

  unfoldable pub authenticate_api_key :
      (authorization : Option (List ℕ)) → List ApiKey → Result Caller
  authenticate_api_key none t = err (unauthorized "Missing Authorization header")
  authenticate_api_key (some header) t =
      if is_empty header
      then err (unauthorized "Missing Authorization header")
      else if not (same_text (before_space header) bearer) || is_empty (after_space header)
      then err (unauthorized "Invalid Authorization header")
      else look_up_api_key (after_space header) (extract_prefix (after_space header)) t

-- The routes. The row comes back in place of the response, whose fields are columns of the row; the
-- key itself is in the answer of the creation only.
abbrev pub key_not_found : Exception
key_not_found = api_exception 404 ErrorCode.not_found "API Key not found"

abbrev pub key_or_raise : Option ApiKey → Action (List ApiKey) ApiKey
key_or_raise none = raise key_not_found
key_or_raise (some k) = pure k

unfoldable pub create_with_prefix :
    (id : Uuid) (now : Time) (workspace_id user_id : Uuid) (name : List ℕ)
    → Digest
    → Option Time
    → Result (List ℕ)
    → Action (List ApiKey) ApiKey
create_with_prefix id now workspace_id user_id name key_hash expires_at (err e) = raise e
create_with_prefix id now workspace_id user_id name key_hash expires_at (ok key_prefix) =
    on_unique_violation "API Key Name already exists"
      (transaction (create_api_key id now workspace_id user_id name key_prefix key_hash expires_at))

-- `key` is the drawn key.
unfoldable pub create_api_key_route :
    (sha512 : List ℕ → Digest) (key : List ℕ) (id : Uuid) (now : Time) (workspace_id user_id : Uuid)
    (name : List ℕ)
    → Option Time
    → Action (List ApiKey) ApiKey
create_api_key_route sha512 key id now workspace_id user_id name expires_at =
    create_with_prefix id now workspace_id user_id name (sha512 key) expires_at (extract_prefix key)

unfoldable pub get_api_key_route : (api_key_id workspace_id : Uuid) → Action (List ApiKey) ApiKey
get_api_key_route api_key_id workspace_id t =
    key_or_raise (get_api_key_by_id_and_workspace api_key_id workspace_id t) t

unfoldable pub revoke_api_key_route :
    (now : Time) → (api_key_id workspace_id : Uuid) → Action (List ApiKey) ApiKey
revoke_api_key_route now api_key_id workspace_id =
    transaction (revoke_api_key now api_key_id workspace_id) >>= key_or_raise
