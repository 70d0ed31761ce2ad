-- ===== src/Auth/Sessions/Rotation.antt =====
-- What a rotation and a logout do to the token that was presented.
use relays.Prelude.{
  ℕ, ◌+◌, ◌*◌, ◌≡◌, refl, sym, subst, inl, inr, Bool, true, false, not, ◌&&◌, Option, none, some,
  List, [], ◌∷◌, arith, Digest, Time, leb, ◌==◌, Bool-cases, ==_refl,
}
use relays.Core.Result.{ok, err}
use relays.Core.Triple.{
  OnOk, OnOk-bind, OnOk-transaction, OnOk-result, on_anything, transaction_err,
}
use relays.Table.{find_first, exists_row, update_where}
use relays.Table.Laws.{update_returning_cases}
use relays.Auth.Model.{User, Session}
use relays.Auth.Queries.{
  get_session_by_refresh_token_hash, rotate_session_refresh_token, revoke_session, get_user_by_id,
  open_session_of_hash, open_session_of_id, rotated_row, revoked_row, session_check,
}
use relays.Auth.Token.{Jwt}
use relays.Auth.Login.{Env, Tokens}
use relays.Auth.Sessions.{
  refresh_access_token, refresh_in_transaction, refresh_session, rotate_for, rotated_tokens,
  always_raise, logout, logout_in_transaction, logout_session, revoked_or_raise,
  invalid_refresh_token, refresh_token_expired,
}

-- The unique index on the hash of the refresh token.
abbrev pub IsUnique : List Session → Type 0
IsUnique [] = Unit
IsUnique (s ∷ t) =
    (exists_row (λ r. r.refresh_token_hash == s.refresh_token_hash) t ≡ false) × IsUnique t

abbrev pub Closed : Digest → List Session → Type 0
Closed h t = get_session_by_refresh_token_hash h t ≡ none

module _ (h : Digest) (f : Session → Session) (p : Session → Bool)
    (out : (r : Session) → open_session_of_hash h (f r) ≡ false) where
  find_first-unused :
      (t : List Session)
      → exists_row (λ r. r.refresh_token_hash == h) t ≡ false
      → find_first (open_session_of_hash h) (update_where p f t) ≡ none
  unfolding find_first update_where exists_row
  find_first-unused [] free = refl
  find_first-unused (x ∷ t) free = ground (arith, out x, find_first-unused t (ground arith))

module _ (h : Digest) (f : Session → Session) (s : Session)
    (out : (r : Session) → open_session_of_hash h (f r) ≡ false) where
  -- The one open session of a hash is closed by an update of its identifier that closes it.
  closed_by_update :
      (t : List Session)
      → IsUnique t
      → find_first (open_session_of_hash h) t ≡ some s
      → find_first (open_session_of_hash h) (update_where (open_session_of_id s.id) f t) ≡ none
  unfolding find_first update_where
  closed_by_update [] unique found = cc
  closed_by_update (x ∷ t) unique found = elim (Bool-cases (open_session_of_hash h x)) [
    | inl hit ↦
        let same : x ≡ s = ground arith in
        let hash : x.refresh_token_hash ≡ h = ground arith in
        let free : exists_row (λ r. r.refresh_token_hash == h) t ≡ false =
          subst (λ k. exists_row (λ r. r.refresh_token_hash == k) t ≡ false) hash unique.0 in
        let touched : open_session_of_id s.id x ≡ true =
          subst (λ y. open_session_of_id y.id x ≡ true) same (ground (arith, ==_refl x.id)) in
        rw (touched, out x) (find_first-unused h f (open_session_of_id s.id) out t free)
    | inr miss ↦
        let rest : find_first (open_session_of_hash h) t ≡ some s = ground arith in
        ground (arith, out x, closed_by_update t unique.1 rest)
  ]

-- A refresh or a logout of a closed token is refused and writes nothing.
pub refresh-Closed :
    {T : Type 0} (jwt : Jwt T) (env : Env) (users : List User) (refresh_token : List ℕ)
    (t : List Session)
    → Closed (env.sha512 refresh_token) t
    → refresh_access_token jwt env users refresh_token t ≡ (err invalid_refresh_token, t)
unfolding refresh_access_token refresh_in_transaction refresh_session
refresh-Closed jwt env users refresh_token t closed =
    let refused : refresh_in_transaction jwt env users refresh_token t
        ≡ (err invalid_refresh_token, t) =
      rw closed refl in
    transaction_err (refresh_in_transaction jwt env users refresh_token) refused

module _ {T : Type 0} (jwt : Jwt T) (env : Env) (users : List User) (h : Digest)
    (renewed : (env.sha512 env.refresh_token == h) ≡ false) where
  rotated_tokens-Closed :
      (user : User) (o : Option Session) (u : List Session)
      → Closed h u
      → OnOk (λ _ v. Closed h v) (rotated_tokens jwt env user o u)
  rotated_tokens-Closed user none u c = tt
  rotated_tokens-Closed user (some _) u c = c

  rotate-Closed :
      (s : Session) (t : List Session)
      → IsUnique t
      → find_first (open_session_of_hash h) t ≡ some s
      → OnOk
          (λ _ v. Closed h v)
          (rotate_session_refresh_token s.id
            (env.sha512 env.refresh_token)
            (env.clock + 30 * 24 * 60 * 60)
            t)
  unfolding rotate_session_refresh_token get_session_by_refresh_token_hash
  rotate-Closed s t unique found =
      let row = rotated_row (env.sha512 env.refresh_token) (env.clock + 30 * 24 * 60 * 60) in
      elim (Bool-cases (
        exists_row (open_session_of_id s.id) t
        && exists_row
            (λ r. r.refresh_token_hash == env.sha512 env.refresh_token && not (r.id == s.id)) t)) [
              | inl taken ↦ rw (taken, OnOk) tt
              | inr free ↦
                  elim (update_returning_cases session_check (open_session_of_id s.id) row t) [
                    | inl broken ↦ rw (free, broken, OnOk) tt
                    | inr done ↦
                        rw (free, done, OnOk)
                          (closed_by_update h row s (λ r. ground arith) t unique found)
                  ]
            ]

  rotate_for-Closed :
      (s : Session) (o : Option User) (t : List Session)
      → IsUnique t
      → find_first (open_session_of_hash h) t ≡ some s
      → OnOk (λ _ v. Closed h v) (rotate_for jwt env s o t)
  unfolding rotate_for
  rotate_for-Closed s none t unique found = tt
  rotate_for-Closed s (some user) t unique found =
      OnOk-bind {B = Tokens T} (λ _ v. Closed h v) (λ _ v. Closed h v)
        (rotate_session_refresh_token s.id (env.sha512 env.refresh_token)
          (env.clock + 30 * 24 * 60 * 60))
        (rotated_tokens jwt env user) t (rotate-Closed s t unique found)
        (rotated_tokens-Closed user)

  refresh_session-Closed :
      (o : Option Session) (t : List Session)
      → IsUnique t
      → find_first (open_session_of_hash h) t ≡ o
      → OnOk (λ _ v. Closed h v) (refresh_session jwt env users o t)
  unfolding refresh_session
  refresh_session-Closed none t unique found = tt
  refresh_session-Closed (some s) t unique found = elim (Bool-cases (leb s.expires_at env.clock)) [
    | inr live ↦ rw live (rotate_for-Closed s (get_user_by_id s.user_id users) t unique found)
    | inl late ↦ rw late (
        OnOk-bind {B = Tokens T} (λ _ _. Unit {0}) (λ _ v. Closed h v) (revoke_session env.now s.id)
          (always_raise refresh_token_expired) t (on_anything (revoke_session env.now s.id t))
          (λ a u k. tt))
  ]

-- The refresh token that was presented is used up by a refresh that gave tokens: unless the new token
-- hashes to the same digest, presenting the old one again is refused and writes nothing.
pub refresh_access_token_once :
    {T : Type 0} (jwt : Jwt T) (env later : Env) (users users' : List User) (refresh_token : List ℕ)
    (tokens : Tokens T) (t : List Session)
    → IsUnique t
    → later.sha512 refresh_token ≡ env.sha512 refresh_token
    → (env.sha512 env.refresh_token == env.sha512 refresh_token) ≡ false
    → (refresh_access_token jwt env users refresh_token t).0 ≡ ok tokens
    → refresh_access_token jwt later users' refresh_token
        (refresh_access_token jwt env users refresh_token t).1
      ≡ (err invalid_refresh_token, (refresh_access_token jwt env users refresh_token t).1)
unfolding refresh_access_token refresh_in_transaction get_session_by_refresh_token_hash
refresh_access_token_once jwt env later users users' refresh_token tokens t unique same_hash renewed
      done =
    let h = env.sha512 refresh_token in
    let t' = (refresh_access_token jwt env users refresh_token t).1 in
    let closed : Closed h t' =
      OnOk-result (λ _ v. Closed h v) (refresh_access_token jwt env users refresh_token t) done
        (OnOk-transaction (λ _ v. Closed h v) (refresh_in_transaction jwt env users refresh_token) t
          (refresh_session-Closed jwt env users h renewed (find_first (open_session_of_hash h) t) t
            unique refl)) in
    refresh-Closed jwt later users' refresh_token t'
      (subst (λ k. Closed k t') (sym same_hash) closed)

revoked_or_raise-Closed :
    (h : Digest) (o : Option Session) (u : List Session)
    → Closed h u
    → OnOk (λ _ v. Closed h v) (revoked_or_raise o u)
revoked_or_raise-Closed h none u c = tt
revoked_or_raise-Closed h (some _) u c = c

logout_session-Closed :
    (now : Time) (h : Digest) (o : Option Session) (t : List Session)
    → IsUnique t
    → find_first (open_session_of_hash h) t ≡ o
    → OnOk (λ _ v. Closed h v) (logout_session now o t)
unfolding logout_session revoke_session get_session_by_refresh_token_hash
logout_session-Closed now h none t unique found = tt
logout_session-Closed now h (some s) t unique found =
    OnOk-bind {B = Unit {0}} (λ _ v. Closed h v) (λ _ v. Closed h v) (revoke_session now s.id)
      revoked_or_raise t
      (elim (update_returning_cases session_check (open_session_of_id s.id) (revoked_row now) t) [
        | inl broken ↦ rw (broken, OnOk) tt
        | inr done ↦
            rw (done, OnOk)
              (closed_by_update h (revoked_row now) s (λ r. ground arith) t unique found)
      ])
      (revoked_or_raise-Closed h)

-- After a logout that succeeded, its refresh token gives no more tokens: presenting it is refused and
-- writes nothing.
pub refresh_after_logout :
    {T : Type 0} (jwt : Jwt T) (now : Time) (later : Env) (users : List User)
    (refresh_token : List ℕ) (t : List Session)
    → IsUnique t
    → (logout now later.sha512 refresh_token t).0 ≡ ok tt
    → refresh_access_token jwt later users refresh_token (logout now later.sha512 refresh_token t).1
      ≡ (err invalid_refresh_token, (logout now later.sha512 refresh_token t).1)
unfolding logout logout_in_transaction get_session_by_refresh_token_hash
refresh_after_logout jwt now later users refresh_token t unique done =
    let h = later.sha512 refresh_token in
    refresh-Closed jwt later users refresh_token (logout now later.sha512 refresh_token t).1 (
      OnOk-result (λ _ v. Closed h v) (logout now later.sha512 refresh_token t) done
        (OnOk-transaction (λ _ v. Closed h v) (logout_in_transaction now later.sha512 refresh_token)
          t (logout_session-Closed now h (find_first (open_session_of_hash h) t) t unique refl)))
