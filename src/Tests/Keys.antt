-- ===== src/Tests/Keys.antt =====
-- API keys on concrete data.
use mathlib.Core.List.{Perm}
use relays.Table.Partition.{EachBefore}
use relays.Text.{strip, lstrip, rstrip}
use relays.ApiKeys.Requests.{
  aware, KeyRequest, KeyBody, ApiKeyResponse, key_body, validate_key_name, validate_expires_at,
  create_from_request, list_workspace_api_keys,
}
use relays.ApiKeys.Requests.Accepted.{create_from_accepted_request, list_workspace_api_keys_lem}
use relays.Tests.Python.{ascii}
use relays.Prelude.{
  ℕ, ◌≤◌, ◌≡◌, refl, ◌≢◌, false, none, some, List, [], ◌∷◌, ◌++◌, Digest, All, take,
}
use relays.Core.ErrorCode.{ErrorCode}
use relays.Core.Result.{ok, err, api_exception}
use relays.Table.{find_first, exists_row, update_returning}
use relays.ApiKeys.{
  ApiKey, authenticate_api_key, create_api_key_route, revoke_api_key, revoke_api_key_route,
  get_api_key_by_prefix, api_key_check, new_api_key, revoked_key, same_api_key,
}
use relays.ApiKeys.Guarded.{
  bearer_header, authenticate-create_api_key_route, authenticate-revoke_api_key_route,
}

abbrev key : List ℕ
key = 114 ∷ 108 ∷ 121 ∷ 95 ∷ 97 ∷ 98 ∷ 99 ∷ 100 ∷ 101 ∷ 102 ∷ 103 ∷ 104 ∷ 105 ∷ []

abbrev first_character : List ℕ → Digest
first_character [] = 0
first_character (c ∷ _) = c

abbrev stored : ApiKey
stored = new_api_key 1 100 8 5 (65 ∷ []) (take 12 key) 114 (some 500)

authenticate-create_api_key_route_example :
    authenticate_api_key first_character 500
      (bearer_header key)
      (create_api_key_route first_character key 1 100 8 5 (65 ∷ []) (some 500) []).1
    ≡ err (api_exception 401 ErrorCode.unauthorized "API Key has expired")
unfolding exists_row
authenticate-create_api_key_route_example =
    authenticate-create_api_key_route first_character key 1 100 8 5 (65 ∷ []) (some 500) [] refl
      refl refl 500

authenticate-revoke_api_key_route_example :
    authenticate_api_key first_character 200
      (bearer_header key)
      (revoke_api_key_route 150 1 8 (stored ∷ [])).1
    ≡ err (api_exception 401 ErrorCode.unauthorized "API Key has been revoked")
unfolding get_api_key_by_prefix find_first revoke_api_key_route revoke_api_key update_returning
    exists_row api_key_check
authenticate-revoke_api_key_route_example =
    authenticate-revoke_api_key_route first_character 200 key 150 stored (revoked_key 150 stored)
      (stored ∷ []) refl refl refl refl

-- " A", to expire at 500
abbrev request : KeyRequest
request = record { name = 32 ∷ 65 ∷ []; expires_at = some (aware 500) }

abbrev accepted : KeyBody
accepted = record { name = 65 ∷ []; expires_at = some 500 }

request_accepted : key_body ascii 200 request ≡ ok accepted
unfolding key_body validate_key_name validate_expires_at strip lstrip rstrip
request_accepted = refl

no_clash : exists_row (same_api_key stored) [] ≡ false
unfolding exists_row
no_clash = refl

create_from_accepted_request_example :
    let (answer, t') = create_from_request ascii 200 first_character key 1 100 8 5 request [] in
    (r : ApiKeyResponse) × (answer ≡ ok r)
    × (r.api_key ≡ some key)
    × (authenticate_api_key first_character 200 (bearer_header key) t'
        ≡ ok (record { api_key_id = 1; workspace_id = 8 }))
create_from_accepted_request_example =
    create_from_accepted_request ascii 200 first_character key 1 100 8 5 request accepted [] refl
      request_accepted refl no_clash

abbrev later_key : ApiKey
later_key = new_api_key 2 150 8 5 (66 ∷ []) (take 12 key) 115 none

list_workspace_api_keys_lem_example :
    let keys = list_workspace_api_keys 8 (stored ∷ later_key ∷ []) in
    (rest : List ApiKey) × Perm (keys ++ rest) (stored ∷ later_key ∷ [])
    × All (λ k. k.workspace_id ≡ 8) keys
    × All (λ k. k.workspace_id ≢ 8) rest
    × EachBefore (λ k l. l.created_at ≤ k.created_at) keys
list_workspace_api_keys_lem_example = list_workspace_api_keys_lem 8 (stored ∷ later_key ∷ [])
