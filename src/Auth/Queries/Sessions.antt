-- ===== src/Auth/Queries/Sessions.antt =====
-- app/modules/auth/db/session_queries.py.
use relays.Prelude.{
  Bool, not, ◌&&◌, ◌||◌, Option, none, some, List, Uuid, Digest, Time, ltb, ◌==◌, if◌then◌else◌,
  is_some,
}
use relays.Table.{find_first, exists_row, update_returning, insert_returning}
use relays.Core.Result.{Action, err, unique_violation}
use relays.Auth.Model.{Session}
use relays.Auth.Queries.Otp.{null_or_from}

-- sessions

abbrev pub session_check : Session → Bool
session_check s = ltb s.created_at s.expires_at && null_or_from s.created_at s.revoked_at

-- `UNIQUE (refresh_token_hash)` and the primary key
abbrev pub same_session : Session → Session → Bool
same_session s r = r.refresh_token_hash == s.refresh_token_hash || r.id == s.id

abbrev pub open_session_of_hash : Digest → Session → Bool
open_session_of_hash h s = s.refresh_token_hash == h && not (is_some s.revoked_at)

abbrev pub open_session_of_id : Uuid → Session → Bool
open_session_of_id id s = s.id == id && not (is_some s.revoked_at)

unfoldable pub create_session :
    (id : Uuid) (now : Time) (user_id : Uuid) → Digest → Time → Action (List Session) Session
create_session id now user_id refresh_token_hash expires_at =
    insert_returning session_check same_session (record {
      id = id;
      user_id = user_id;
      refresh_token_hash = refresh_token_hash;
      expires_at = expires_at;
      revoked_at = none;
      created_at = now;
    })

unfoldable pub get_session_by_refresh_token_hash : Digest → List Session → Option Session
get_session_by_refresh_token_hash h t = find_first (open_session_of_hash h) t

unfoldable pub get_session_by_id : Uuid → List Session → Option Session
get_session_by_id id t = find_first (open_session_of_id id) t

abbrev pub rotated_row : Digest → Time → Session → Session
rotated_row refresh_token_hash expires_at s = record s {
  refresh_token_hash = refresh_token_hash;
  expires_at = expires_at;
}

-- The unique index on the hash is checked against the rows of other identifiers.
unfoldable pub rotate_session_refresh_token :
    Uuid → Digest → Time → Action (List Session) (Option Session)
rotate_session_refresh_token id refresh_token_hash expires_at t =
    if exists_row (open_session_of_id id) t
      && exists_row (λ s. s.refresh_token_hash == refresh_token_hash && not (s.id == id)) t
    then (err unique_violation, t)
    else update_returning session_check (open_session_of_id id)
        (rotated_row refresh_token_hash expires_at) t

abbrev pub revoked_row : Time → Session → Session
revoked_row now s = record s { revoked_at = some now }

unfoldable pub revoke_session : (now : Time) → Uuid → Action (List Session) (Option Session)
revoke_session now id = update_returning session_check (open_session_of_id id) (revoked_row now)

unfoldable pub revoke_all_user_sessions :
    (now : Time) → (user_id : Uuid) → Action (List Session) (Option Session)
revoke_all_user_sessions now user_id =
    update_returning session_check (λ s. s.user_id == user_id && not (is_some s.revoked_at))
      (revoked_row now)
