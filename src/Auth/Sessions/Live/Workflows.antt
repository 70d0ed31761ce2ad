-- ===== src/Auth/Sessions/Live/Workflows.antt =====
-- The workflows on sessions implement the operations on live digests.
use relays.Auth.Sessions.{
  revoked_or_raise, logout_session, Env, rotate_for, refresh_session, rotated_tokens, Tokens,
  always_raise, refresh_token_expired, refresh_access_token, refresh_in_transaction, logout,
  logout_in_transaction,
}
use relays.Auth.Token.{Jwt}
use relays.Core.Triple.{OnOk, OnOk-bind, on_anything}
use relays.Core.Result.{Result, ok, err}
use relays.Table.Laws.{insert_returning_cases}
use relays.Prelude.{
  ℕ, ◌+◌, ◌*◌, ◌≡◌, refl, inl, inr, Option, none, some, List, Uuid, Digest, Time, leb, Bool-cases,
}
use relays.Table.{find_first}
use relays.Auth.Model.{Session, User}
use relays.Auth.Queries.{
  open_session_of_hash, same_session, rotate_session_refresh_token, revoke_session,
  get_session_by_refresh_token_hash, session_check, get_user_by_id, create_session,
}
use relays.Auth.Sessions.Live.{IsKeyed, Live, renewed, closed, live, opened}
use relays.Auth.Sessions.Live.Refines.{
  Implements, rotate-Implements, revoke-Implements, create-Implements,
}

module _ {T : Type 0} (jwt : Jwt T) (env : Env) where
  abbrev new_hash : Digest
  new_hash = env.sha512 env.refresh_token

  abbrev new_expiry : Time
  new_expiry = env.clock + 30 * 24 * 60 * 60

  rotated_tokens-Implements :
      (f : Live → Live) (t : List Session) (user : User) (o : Option Session) (u : List Session)
      → IsKeyed u × ((k : Digest) → live u k ≡ f (live t) k)
      → Implements f t (rotated_tokens jwt env user o u)
  rotated_tokens-Implements f t user none u c = tt
  rotated_tokens-Implements f t user (some _) u c = c

  rotate_for-Implements :
      (s : Session) (h : Digest) (o : Option User) (t : List Session)
      → IsKeyed t
      → find_first (open_session_of_hash h) t ≡ some s
      → Implements (renewed h new_hash new_expiry) t (rotate_for jwt env s o t)
  unfolding rotate_for
  rotate_for-Implements s h none t keyed found = tt
  rotate_for-Implements s h (some user) t keyed found =
      let Q : List Session → Type 0 =
        λ v. IsKeyed v × ((k : Digest) → live v k ≡ renewed h new_hash new_expiry (live t) k) in
      OnOk-bind {B = Tokens T} (λ _ v. Q v) (λ _ v. Q v)
        (rotate_session_refresh_token s.id new_hash new_expiry) (rotated_tokens jwt env user) t
        (rotate-Implements s h new_hash new_expiry t keyed found)
        (rotated_tokens-Implements (renewed h new_hash new_expiry) t user)

  refresh_session-Implements :
      (users : List User) (h : Digest) (o : Option Session) (t : List Session)
      → IsKeyed t
      → find_first (open_session_of_hash h) t ≡ o
      → Implements (renewed h new_hash new_expiry) t (refresh_session jwt env users o t)
  unfolding refresh_session
  refresh_session-Implements users h none t keyed found = tt
  refresh_session-Implements users h (some s) t keyed found =
      elim (Bool-cases (leb s.expires_at env.clock)) [
        | inr going ↦
            rw going (rotate_for-Implements s h (get_user_by_id s.user_id users) t keyed found)
        | inl late ↦
            let Q : List Session → Type 0 = λ v.
              IsKeyed v × ((k : Digest) → live v k ≡ renewed h new_hash new_expiry (live t) k) in
            rw late (
              OnOk-bind {B = Tokens T} (λ _ _. Unit {0}) (λ _ v. Q v) (revoke_session env.now s.id)
                (always_raise refresh_token_expired) t (on_anything (revoke_session env.now s.id t))
                (λ a u k. tt))
      ]

revoked_or_raise-Implements :
    (f : Live → Live) (t : List Session) (o : Option Session) (u : List Session)
    → IsKeyed u × ((k : Digest) → live u k ≡ f (live t) k)
    → Implements f t (revoked_or_raise o u)
revoked_or_raise-Implements f t none u c = tt
revoked_or_raise-Implements f t (some _) u c = c

logout_session-Implements :
    (now : Time) (h : Digest) (o : Option Session) (t : List Session)
    → IsKeyed t
    → find_first (open_session_of_hash h) t ≡ o
    → Implements (closed h) t (logout_session now o t)
unfolding logout_session
logout_session-Implements now h none t keyed found = tt
logout_session-Implements now h (some s) t keyed found =
    let Q : List Session → Type 0 =
      λ v. IsKeyed v × ((k : Digest) → live v k ≡ closed h (live t) k) in
    OnOk-bind {B = Unit {0}} (λ _ v. Q v) (λ _ v. Q v) (revoke_session now s.id) revoked_or_raise t
      (revoke-Implements s h now t keyed found) (revoked_or_raise-Implements (closed h) t)

-- The live digests after an operation: what `f` makes of them if it returned, as they were if it raised.
abbrev pub after : {A : Type 0} → Result A → (Live → Live) → Live → Live
after (ok _) f L = f L
after (err _) f L = L

-- The table that an operation leaves stands for the live digests after it, and still has its keys.
abbrev pub StandsFor :
    {A : Type 0} → (Live → Live) → List Session → Result A × List Session → Type 0
StandsFor f t x = IsKeyed x.1 × ((k : Digest) → live x.1 k ≡ after x.0 f (live t) k)

transaction_stands :
    {A : Type 0} (f : Live → Live) (t : List Session) (r : Result A) (v : List Session)
    → IsKeyed t
    → Implements f t (r, v)
    → StandsFor f t
        (elim r as (λ _. Result A × List Session) [ ok a ↦ (ok a, v) | err e ↦ (err e, t) ])
transaction_stands f t (ok a) v keyed done = done
transaction_stands f t (err e) v keyed done = (keyed, λ k. refl)

insert_stands :
    (f : Live → Live) (id : Uuid) (now : Time) (user_id : Uuid) (h : Digest) (expires_at : Time)
    (t : List Session)
    → IsKeyed t
    → Implements f t (create_session id now user_id h expires_at t)
    → StandsFor f t (create_session id now user_id h expires_at t)
unfolding create_session
insert_stands f id now user_id h expires_at t keyed done =
    let row : Session = record {
      id = id;
      user_id = user_id;
      refresh_token_hash = h;
      expires_at = expires_at;
      revoked_at = none;
      created_at = now;
    } in
    elim (insert_returning_cases session_check same_session row t) [
      | inl (e, raised) ↦ rw raised (keyed, λ k. refl)
      | inr (fits, free, stored) ↦ rw stored (rw (OnOk, stored) at done)
    ]

-- The table of sessions implements a map from live digests to their users and expiries. On a table with
-- its unique keys, a creation that returns adds the digest, a refresh that returns moves what the old
-- token's digest gives to the new token's with the new expiry, a logout that returns removes the digest,
-- and each of them leaves the map as it was when it raises. The keys stay unique.
pub sessions-StandsFor :
    {T : Type 0} (jwt : Jwt T) (env : Env) (users : List User) (user_id : Uuid)
    (refresh_token : List ℕ) (t : List Session)
    → IsKeyed t
    → let old = env.sha512 refresh_token in
      let new = env.sha512 env.refresh_token in
      let expires_at = env.clock + 30 * 24 * 60 * 60 in
      StandsFor
        (opened new (record { user_id = user_id; expires_at = expires_at }))
        t
        (create_session env.session_id env.now user_id new expires_at t)
      × StandsFor
          (renewed old new expires_at)
          t
          (refresh_access_token jwt env users refresh_token t)
      × StandsFor (closed old) t (logout env.now env.sha512 refresh_token t)
unfolding refresh_access_token refresh_in_transaction logout logout_in_transaction
    get_session_by_refresh_token_hash
sessions-StandsFor jwt env users user_id refresh_token t keyed =
    let old = env.sha512 refresh_token in
    let new = env.sha512 env.refresh_token in
    let expires_at = env.clock + 30 * 24 * 60 * 60 in
    (
      insert_stands _ env.session_id env.now user_id new expires_at t keyed
          (create-Implements env.session_id env.now user_id new expires_at t keyed),
      transaction_stands (renewed old new expires_at) t _ _ keyed (
          refresh_session-Implements jwt env users old (find_first (open_session_of_hash old) t) t
            keyed refl),
      transaction_stands (closed old) t _ _ keyed (
          logout_session-Implements env.now old (find_first (open_session_of_hash old) t) t keyed
            refl),
    )
