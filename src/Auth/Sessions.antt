-- ===== src/Auth/Sessions.antt =====
-- app/modules/auth/workflows/sessions: refresh_access_token.py and logout.py. They write the table
-- sessions only, and read users.
pub mod Live
pub mod Rotation
use relays.Prelude.{
  ℕ, zero, suc, ◌+◌, ◌-◌, ◌*◌, ◌^◌, ◌≤◌, ◌<◌, min, String, ◌≡◌, refl, sym, ap, subst, ◌∙◌, ◌≢◌, ◌⊎◌,
  inl, inr, Bool, true, false, not, ◌&&◌, ◌||◌, Option, none, some, List, [], ◌∷◌, ◌++◌, map, arith,
  str_eq, Uuid, Digest, Time, ltb, leb, ◌==◌, if◌then◌else◌, Bool-cases, Option-cases, ==_refl,
  is_some, map_option, All, length, take, All-append, All-map, length-append,
}
use relays.Core.ErrorCode.{ErrorCode}
use relays.Core.Result.{Exception, Action, api_exception, pure, raise, transaction, ◌>>=◌}
use relays.Auth.Model.{User, Session}
use relays.Auth.Queries.{
  get_session_by_refresh_token_hash, rotate_session_refresh_token, revoke_session, get_user_by_id,
}
use relays.Auth.Token.{Jwt, create_access_token}
use relays.Auth.Login.{Env, Tokens}

abbrev pub invalid_refresh_token : Exception
invalid_refresh_token = api_exception 401 ErrorCode.invalid_refresh_token "Invalid refresh token"

abbrev pub refresh_token_expired : Exception
refresh_token_expired = api_exception 401 ErrorCode.refresh_token_expired "Refresh token expired"

abbrev pub always_raise : {A : Type 0} → Exception → Option Session → Action (List Session) A
always_raise e _ = raise e

module _ {T : Type 0} (jwt : Jwt T) (env : Env) where
  abbrev pub rotated_tokens : User → Option Session → Action (List Session) (Tokens T)
  rotated_tokens user none = raise invalid_refresh_token
  rotated_tokens user (some _) = pure (record {
    access_token = create_access_token jwt env.clock user.id;
    refresh_token = env.refresh_token;
  })

  unfoldable pub rotate_for : Session → Option User → Action (List Session) (Tokens T)
  rotate_for session none = raise invalid_refresh_token
  rotate_for session (some user) =
      rotate_session_refresh_token session.id (env.sha512 env.refresh_token)
        (env.clock + 30 * 24 * 60 * 60)
      >>= rotated_tokens user

  unfoldable pub refresh_session : List User → Option Session → Action (List Session) (Tokens T)
  refresh_session users none = raise invalid_refresh_token
  refresh_session users (some session) =
      if leb session.expires_at env.clock
      then revoke_session env.now session.id >>= always_raise refresh_token_expired
      else rotate_for session (get_user_by_id session.user_id users)

  unfoldable pub refresh_in_transaction : List User → List ℕ → Action (List Session) (Tokens T)
  refresh_in_transaction users refresh_token t =
      refresh_session users (get_session_by_refresh_token_hash (env.sha512 refresh_token) t) t

  unfoldable pub refresh_access_token : List User → List ℕ → Action (List Session) (Tokens T)
  refresh_access_token users refresh_token =
      transaction (refresh_in_transaction users refresh_token)

abbrev pub revoked_or_raise : Option Session → Action (List Session) (Unit {0})
revoked_or_raise none = raise invalid_refresh_token
revoked_or_raise (some _) = pure tt

unfoldable pub logout_session : (now : Time) → Option Session → Action (List Session) (Unit {0})
logout_session now none = raise invalid_refresh_token
logout_session now (some session) = revoke_session now session.id >>= revoked_or_raise

unfoldable pub logout_in_transaction :
    (now : Time) → (sha512 : List ℕ → Digest) → List ℕ → Action (List Session) (Unit {0})
logout_in_transaction now sha512 refresh_token t =
    logout_session now (get_session_by_refresh_token_hash (sha512 refresh_token) t) t

unfoldable pub logout :
    (now : Time) → (sha512 : List ℕ → Digest) → List ℕ → Action (List Session) (Unit {0})
logout now sha512 refresh_token = transaction (logout_in_transaction now sha512 refresh_token)
