-- ===== src/ApiKeys/Requests/Accepted.antt =====
-- What a body that is accepted leads to, and the order of the list.
use mathlib.Core.List.{Perm}
use relays.Prelude.{
  ℕ, ◌≤◌, ◌≡◌, refl, sym, ap, subst, ◌∙◌, ◌≢◌, inl, inr, Bool, true, false, Option, none, some,
  List, [], ◌∷◌, ◌++◌, arith, Uuid, Digest, Time, ltb, leb, ◌==◌, if◌then◌else◌, Bool-cases, All,
  length, take, All-map,
}
use relays.Core.Result.{Result, ok, err, Action}
use relays.Table.{exists_row, select_where}
use relays.Table.Order.{order_by, order_by-InOrder, All-order_by}
use relays.Table.Partition.{
  EachBefore, others, ordered-Perm, All-select_where, All-others, InOrder-EachBefore,
}
use relays.Text.{Unicode, is_nil, lstrip, rstrip, strip}
use relays.ApiKeys.{
  ApiKey, create_api_key_route, not_blank, same_api_key, new_api_key, expired_at,
  authenticate_api_key,
}
use relays.ApiKeys.Guarded.{
  bearer_header, create_api_key_route_ok, authenticate-create_api_key_route,
}
use relays.ApiKeys.Requests.{
  SentInstant, aware, naive, KeyRequest, KeyBody, ApiKeyResponse, checked_key_name,
  validate_key_name, validate_expires_at, key_body, create_from_request, created_response, newer,
  list_workspace_api_keys,
}
use relays.Auth.Validators.{request_field}
use relays.Auth.Routes.{answering, with_body, ◌then◌}

-- A text that begins with a character that is no white space is not blank.
rstrip_visible :
    (p : ℕ → Bool) (c : ℕ) (s : List ℕ)
    → p c ≡ false
    → p 32 ≡ true
    → not_blank (rstrip p (c ∷ s)) ≡ true
unfolding rstrip
rstrip_visible p c s visible space = elim (Bool-cases (c == 32)) [
  | inl same ↦
      let here : c ≡ 32 = ground arith in
      let clash : p 32 ≡ false = subst (λ d. p d ≡ false) here visible in cc
  | inr other ↦ rw visible (rw other refl)
]

strip_not_blank :
    (p : ℕ → Bool) (s : List ℕ)
    → p 32 ≡ true
    → is_nil (strip p s) ≡ false
    → not_blank (strip p s) ≡ true
unfolding strip lstrip
strip_not_blank p [] space full = unfold rstrip in cc
strip_not_blank p (c ∷ s) space full = elim (Bool-cases (p c)) [
  | inl blank ↦ rw blank (strip_not_blank p s space (rw (strip, lstrip, blank) at full))
  | inr visible ↦ rw visible (rstrip_visible p c s visible space)
]

body_parts :
    (n : Result (List ℕ)) (e : Result (Option Time)) (v : KeyBody)
    → (request_field "body.name" n then λ name. request_field "body.expires_at" e then λ expires_at.
        ok (record { name = name; expires_at = expires_at }))
      ≡ ok v
    → (n ≡ ok v.name) × (e ≡ ok v.expires_at)
body_parts (err x) e v h = cc
body_parts (ok name) (err x) v h = cc
body_parts (ok name) (ok expires_at) v h =
    let same : ◌≡◌ {A = KeyBody} (record { name = name; expires_at = expires_at }) v = cc in
    (ap (λ (w : KeyBody). ok w.name) same, ap (λ (w : KeyBody). ok w.expires_at) same)

checked_name :
    (value name : List ℕ)
    → checked_key_name value ≡ ok name
    → (value ≡ name) × (is_nil value ≡ false)
checked_name value name h = ground arith

accepted_name :
    (u : Unicode) (value name : List ℕ)
    → u.is_space 32 ≡ true
    → validate_key_name u value ≡ ok name
    → not_blank name ≡ true
unfolding validate_key_name
accepted_name u value name space h =
    let checked = checked_name (strip u.is_space value) name h in
    subst (λ s. not_blank s ≡ true) checked.0 (strip_not_blank u.is_space value space checked.1)

accepted_expiry :
    (clock : Time) (sent : Option SentInstant) (expires_at : Option Time)
    → validate_expires_at clock sent ≡ ok expires_at
    → expired_at clock expires_at ≡ false
unfolding validate_expires_at
accepted_expiry clock none expires_at h =
    let same : none ≡ expires_at = cc in subst (λ o. expired_at clock o ≡ false) same refl
accepted_expiry clock (some (naive t)) expires_at h = cc
accepted_expiry clock (some (aware t)) expires_at h = elim (Bool-cases (leb t clock)) [
  | inl past ↦ cc
  | inr future ↦
      let same : some t ≡ expires_at = ground (arith, future) in
      subst (λ o. expired_at clock o ≡ false) same future
]

-- A body that its validators accept, with a drawn key of twelve characters or more that clashes with no
-- row, gives a key: the answer has it, and the guard accepts it for the workspace at the instant at which
-- the body was accepted. The space is white space of Unicode.
pub create_from_accepted_request :
    (u : Unicode) (clock : Time) (sha512 : List ℕ → Digest) (key : List ℕ) (id : Uuid) (now : Time)
    (workspace_id user_id : Uuid) (b : KeyRequest) (v : KeyBody) (t : List ApiKey)
    → u.is_space 32 ≡ true
    → key_body u clock b ≡ ok v
    → ltb (length key) 12 ≡ false
    → exists_row
        (same_api_key
          (new_api_key id now workspace_id user_id v.name (take 12 key) (sha512 key) v.expires_at))
        t
      ≡ false
    → let (answer, t') = create_from_request u clock sha512 key id now workspace_id user_id b t in
      (r : ApiKeyResponse) × (answer ≡ ok r)
      × (r.api_key ≡ some key)
      × (authenticate_api_key sha512 clock (bearer_header key) t'
          ≡ ok (record { api_key_id = id; workspace_id = workspace_id }))
unfolding create_from_request key_body
create_from_accepted_request u clock sha512 key id now workspace_id user_id b v t space accepted
      long free =
    let parts =
      body_parts (validate_key_name u b.name) (validate_expires_at clock b.expires_at) v accepted in
    let named = accepted_name u b.name v.name space parts.0 in
    let done =
      create_api_key_route_ok sha512 key id now workspace_id user_id v.name v.expires_at t long
        named free in
    let guarded =
      authenticate-create_api_key_route sha512 key id now workspace_id user_id v.name v.expires_at t
        long named free clock in
    let live = accepted_expiry clock b.expires_at v.expires_at parts.1 in
    let row =
      new_api_key id now workspace_id user_id v.name (take 12 key) (sha512 key) v.expires_at in
    let create : KeyBody → Action (List ApiKey) ApiKeyResponse = λ w.
      answering (created_response key)
        (create_api_key_route sha512 key id now workspace_id user_id w.name w.expires_at) in
    let ran : create_from_request u clock sha512 key id now workspace_id user_id b t
        ≡ (created_response key row, t ++ row ∷ []) =
      ap (λ r. with_body r create t) accepted
      ∙ ap (λ (x : Result ApiKey × List ApiKey). (x.0 then created_response key, x.1)) done in
    (
      _,
      ap (λ x. x.0) ran,
      refl,
      ap (λ x. authenticate_api_key sha512 clock (bearer_header key) x.1) ran
          ∙ ap
              (λ (x : Result ApiKey × List ApiKey).
                authenticate_api_key sha512 clock (bearer_header key) x.1)
              (sym done)
          ∙ guarded
          ∙ rw live refl,
    )

-- The list of a workspace splits the table: the listed keys are those of the workspace, the rest are of
-- other workspaces, and of two listed keys the one that was created later comes first.
pub list_workspace_api_keys_lem :
    (workspace_id : Uuid) (t : List ApiKey)
    → let keys = list_workspace_api_keys workspace_id t in
      (rest : List ApiKey) × Perm (keys ++ rest) t
      × All (λ k. k.workspace_id ≡ workspace_id) keys
      × All (λ k. k.workspace_id ≢ workspace_id) rest
      × EachBefore (λ k l. l.created_at ≤ k.created_at) keys
unfolding list_workspace_api_keys
list_workspace_api_keys_lem workspace_id t =
    let p : ApiKey → Bool = λ k. k.workspace_id == workspace_id in
    let Owned : ApiKey → Type 0 = λ k. k.workspace_id ≡ workspace_id in
    let keys = order_by newer (select_where p t) in
    let owned : All Owned keys = All-order_by newer Owned (select_where p t) (
      All-map (λ k. p k ≡ true) Owned (select_where p t) (λ k h. ground arith)
        (All-select_where p t)) in
    (
      others p t,
      ordered-Perm newer p t,
      owned,
      All-map (λ k. p k ≡ false) _ (others p t) (λ k h same. ground (arith, h, same))
          (All-others p t),
      InOrder-EachBefore newer Owned _ keys (λ k l h j first. ground (arith, first)) owned
          (order_by-InOrder newer (λ k l h. ground arith) (λ k l m h j. ground arith)
            (select_where p t)),
    )
