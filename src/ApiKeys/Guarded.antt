-- ===== src/ApiKeys/Guarded.antt =====
-- What the guard says of a key that was created or revoked.
use relays.Prelude.{
  ℕ, ◌≡◌, refl, ap, ◌∙◌, inl, inr, Bool, true, false, Option, none, some, List, [], ◌∷◌, ◌++◌,
  arith, Uuid, Digest, Time, ltb, if◌then◌else◌, ==_refl, length, take,
}
use relays.Core.ErrorCode.{ErrorCode}
use relays.Core.Result.{Result, ok, err, api_exception, conflict_result, transaction}
use relays.Core.Triple.{transaction_ok, OnOk, OnOk-bind, OnOk-transaction, OnOk-result}
use relays.Table.{find_first, exists_row, update_where}
use relays.Table.Laws.{insert_returning_ok, find_first-append_new, update_returning_cases}
use relays.Text.{same_text}
use relays.ApiKeys.{
  ApiKey, authenticate_api_key, look_up_api_key, check_api_key, extract_prefix,
  get_api_key_by_prefix, bearer, is_empty, expired_at, api_key_check, same_api_key, new_api_key,
  not_blank, create_api_key, create_api_key_route, create_with_prefix, revoke_api_key,
  revoke_api_key_route, active_key_of, revoked_key, key_or_raise,
}

same_text_refl : (s : List ℕ) → same_text s s ≡ true
same_text_refl [] = refl
same_text_refl (c ∷ s) = ground (arith, same_text_refl s)

-- A header with the scheme and the key.
abbrev pub bearer_header : List ℕ → Option (List ℕ)
bearer_header key = some (bearer ++ 32 ∷ key)

not_empty : (s : List ℕ) → ltb (length s) 12 ≡ false → is_empty s ≡ false
not_empty [] h = cc
not_empty (c ∷ s) h = refl

module _ (sha512 : List ℕ → Digest) (clock : Time) (key : List ℕ)
    (long : ltb (length key) 12 ≡ false) where
  -- A well-formed header is judged by the row of the key's prefix.
  authenticate_key :
      (t : List ApiKey) (o : Option ApiKey)
      → get_api_key_by_prefix (take 12 key) t ≡ o
      → authenticate_api_key sha512 clock (bearer_header key) t ≡ check_api_key sha512 clock key o
  unfolding authenticate_api_key look_up_api_key extract_prefix
  authenticate_key t o found = rw (not_empty key long, long, found) refl

extract_prefix_ok :
    (key : List ℕ) → ltb (length key) 12 ≡ false → extract_prefix key ≡ ok (take 12 key)
unfolding extract_prefix
extract_prefix_ok key long = rw long refl

free_prefix :
    (k : ApiKey) (t : List ApiKey)
    → exists_row (same_api_key k) t ≡ false
    → exists_row (λ l. same_text l.key_prefix k.key_prefix) t ≡ false
unfolding exists_row
free_prefix k [] h = refl
free_prefix k (x ∷ t) h = ground (arith, free_prefix k t)

row_check :
    (id : Uuid) (now : Time) (workspace_id user_id : Uuid) (name key_prefix : List ℕ) (h : Digest)
    (expires_at : Option Time)
    → not_blank name ≡ true
    → api_key_check (new_api_key id now workspace_id user_id name key_prefix h expires_at) ≡ true
unfolding api_key_check
row_check id now workspace_id user_id name key_prefix h expires_at named = rw named refl

module _ (sha512 : List ℕ → Digest) (key : List ℕ) (id : Uuid) (now : Time)
    (workspace_id user_id : Uuid) (name : List ℕ) (expires_at : Option Time) (t : List ApiKey)
    (long : ltb (length key) 12 ≡ false) (named : not_blank name ≡ true)
    (free : exists_row
        (same_api_key
          (new_api_key id now workspace_id user_id name (take 12 key) (sha512 key) expires_at))
        t
      ≡ false) where
  abbrev pub created : ApiKey
  created = new_api_key id now workspace_id user_id name (take 12 key) (sha512 key) expires_at

  pub create_api_key_route_ok :
      create_api_key_route sha512 key id now workspace_id user_id name expires_at t
      ≡ (ok created, t ++ created ∷ [])
  unfolding create_api_key_route create_with_prefix create_api_key
  create_api_key_route_ok =
      let create =
        create_api_key id now workspace_id user_id name (take 12 key) (sha512 key) expires_at in
      ap (λ p. create_with_prefix id now workspace_id user_id name (sha512 key) expires_at p t)
        (extract_prefix_ok key long)
      ∙ (ap
          (λ (x : Result ApiKey × List ApiKey).
            (conflict_result "API Key Name already exists" x.0, x.1))
          (transaction_ok create (
            insert_returning_ok api_key_check same_api_key created t
              (row_check id now workspace_id user_id name (take 12 key) (sha512 key) expires_at
                named)
              free)))

  -- A key that was created, with a name that is not blank and clashing with no key of the table, is
  -- accepted by the guard for its workspace until it expires, and refused as expired from then on.
  pub authenticate-create_api_key_route :
      (clock : Time)
      → authenticate_api_key sha512 clock
          (bearer_header key)
          (create_api_key_route sha512 key id now workspace_id user_id name expires_at t).1
        ≡ (if expired_at clock expires_at
            then err (api_exception 401 ErrorCode.unauthorized "API Key has expired")
            else ok (record { api_key_id = id; workspace_id = workspace_id }))
  unfolding check_api_key get_api_key_by_prefix
  authenticate-create_api_key_route clock =
      let found =
        find_first-append_new (λ l. same_text l.key_prefix created.key_prefix) t created
          (free_prefix created t free) (same_text_refl (take 12 key)) in
      rw
        (
          create_api_key_route_ok,
          authenticate_key sha512 clock key long (t ++ created ∷ []) (some created) found,
          ==_refl (sha512 key),
        )
        refl

find_first-revoked :
    (q p : ApiKey → Bool) (f : ApiKey → ApiKey) (t : List ApiKey) (k : ApiKey)
    → ((l : ApiKey) → q (f l) ≡ q l)
    → find_first q t ≡ some k
    → find_first q (update_where p f t) ≡ some (if p k then f k else k)
unfolding find_first update_where
find_first-revoked q p f [] k same found = cc
find_first-revoked q p f (x ∷ t) k same found =
    ground (arith, same x, find_first-revoked q p f t k same)

module _ (sha512 : List ℕ → Digest) (clock : Time) (key : List ℕ)
    (long : ltb (length key) 12 ≡ false) (now : Time) (k : ApiKey)
    (hash : k.key_hash ≡ sha512 key) where
  abbrev Refused : List ApiKey → Type 0
  Refused u =
      authenticate_api_key sha512 clock (bearer_header key) u
      ≡ err (api_exception 401 ErrorCode.unauthorized "API Key has been revoked")

  check_revoked :
      check_api_key sha512 clock key
        (some (if active_key_of k.id k.workspace_id k then revoked_key now k else k))
      ≡ err (api_exception 401 ErrorCode.unauthorized "API Key has been revoked")
  unfolding check_api_key
  check_revoked = ground (arith, hash, ==_refl k.id, ==_refl k.workspace_id)

  revoke-Refused :
      (t : List ApiKey)
      → get_api_key_by_prefix (take 12 key) t ≡ some k
      → OnOk (λ _ u. Refused u) (revoke_api_key now k.id k.workspace_id t)
  unfolding revoke_api_key get_api_key_by_prefix
  revoke-Refused t found =
      let prefix = λ (l : ApiKey). same_text l.key_prefix (take 12 key) in
      elim (update_returning_cases api_key_check (active_key_of k.id k.workspace_id)
        (revoked_key now) t) [
          | inl broken ↦ rw (broken, OnOk) tt
          | inr done ↦
              rw (done, OnOk)
                (authenticate_key sha512 clock key long _ _ (
                    find_first-revoked prefix (active_key_of k.id k.workspace_id) (revoked_key now)
                      t k (λ l. refl) found)
                  ∙ check_revoked)
        ]

  key_or_raise-Refused :
      (o : Option ApiKey) (u : List ApiKey) → Refused u → OnOk (λ _ v. Refused v) (key_or_raise o u)
  key_or_raise-Refused none u h = tt
  key_or_raise-Refused (some _) u h = h

-- The guard refuses a key as revoked once its revocation, in its workspace, has succeeded.
pub authenticate-revoke_api_key_route :
    (sha512 : List ℕ → Digest) (clock : Time) (key : List ℕ) (now : Time) (k row : ApiKey)
    (t : List ApiKey)
    → ltb (length key) 12 ≡ false
    → get_api_key_by_prefix (take 12 key) t ≡ some k
    → k.key_hash ≡ sha512 key
    → (revoke_api_key_route now k.id k.workspace_id t).0 ≡ ok row
    → authenticate_api_key sha512 clock
        (bearer_header key)
        (revoke_api_key_route now k.id k.workspace_id t).1
      ≡ err (api_exception 401 ErrorCode.unauthorized "API Key has been revoked")
unfolding revoke_api_key_route
authenticate-revoke_api_key_route sha512 clock key now k row t long found hash done =
    let refused = λ (_ : ApiKey). Refused sha512 clock key long now k hash in
    let revoke = revoke_api_key now k.id k.workspace_id in
    OnOk-result refused (revoke_api_key_route now k.id k.workspace_id t) done (
      OnOk-bind {B = ApiKey} (λ _ u. Refused sha512 clock key long now k hash u) refused
        (transaction revoke) key_or_raise t
        (OnOk-transaction (λ _ u. Refused sha512 clock key long now k hash u) revoke t
          (revoke-Refused sha512 clock key long now k hash t found))
        (key_or_raise-Refused sha512 clock key long now k hash))
