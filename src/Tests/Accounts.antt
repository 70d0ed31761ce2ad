-- ===== src/Tests/Accounts.antt =====
-- Tokens, one-time passwords and sessions on concrete data.
use relays.Auth.Sessions.Live.{IsKeyed, opened, closed, renewed}
use relays.Auth.Sessions.Live.Workflows.{StandsFor, sessions-StandsFor}
use relays.Prelude.{
  ℕ, ◌+◌, ◌*◌, ◌≡◌, refl, true, none, some, List, [], ◌∷◌, ◌++◌, arith, Digest, if◌then◌else◌,
}
use relays.Core.ErrorCode.{ErrorCode}
use relays.Core.Result.{ok, err, api_exception}
use relays.Tests.Python.{plain_jwt, plain_jwt-IsPyJwt}
use relays.Text.{same_text}
use relays.Table.{find_first, exists_row, update_where, update_returning, insert_returning}
use relays.Auth.Model.{AuthDatabase, User, RegistrationOtp, Session, WorkspaceMemberRole}
use relays.Auth.Queries.{
  consume_registration_otp, get_registration_otp_by_email, get_user_by_email,
  get_login_otp_by_user_id, consume_login_otp, get_workspace_context, create_session,
  get_session_by_refresh_token_hash, rotate_session_refresh_token, revoke_session, get_user_by_id,
  delete_registration_otp,
}
use relays.Auth.Token.{
  create_access_token, create_registration_token, decode_access_token, decode_registration_token,
}
use relays.Auth.Token.Lifetimes.{
  decode-create_access_token, decode-create_registration_token, tokens_kept_apart,
}
use relays.Auth.Registration.{
  request_registration_otp, verify_registration_otp, verify_in_transaction, verify_found,
}
use relays.Auth.Registration
use relays.Auth.Registration.Verified.{verify_requested_otp}
use relays.Auth.Registration.SingleUse.{verify_registration_otp_once}
use relays.Auth.Registration.Roundtrip.{
  request_registration_otp_lem, consumed_otp_blocks, requested_otp,
}
use relays.Auth.Login.{
  Env, authenticate_account, authenticate_in_transaction, authenticate_user, check_login_otp,
  after_consumed, open_session, on_login_otps, on_sessions,
}
use relays.Auth.Login.SingleUse.{authenticate_account_once}
use relays.Auth.Sessions.{
  refresh_access_token, refresh_in_transaction, refresh_session, rotate_for, logout,
  logout_in_transaction, logout_session, invalid_refresh_token,
}
use relays.Auth.Sessions.Rotation.{refresh_access_token_once, refresh_after_logout}

decode-create_access_token_example :
    decode_access_token plain_jwt 3700 (create_access_token plain_jwt 100 5)
    ≡ err (api_exception 401 ErrorCode.access_token_expired "Access token expired")
decode-create_access_token_example =
    decode-create_access_token plain_jwt plain_jwt-IsPyJwt 5 100 3700 (omega arith)

decode-create_registration_token_example :
    decode_registration_token plain_jwt 1000
      (create_registration_token plain_jwt 100 "ada@relays.dev")
    ≡ err (api_exception 401 ErrorCode.invalid_request "Registration token expired")
decode-create_registration_token_example =
    decode-create_registration_token plain_jwt plain_jwt-IsPyJwt "ada@relays.dev" 100 1000 refl
      (omega arith)

tokens_kept_apart_example :
    (decode_access_token plain_jwt 101 (create_registration_token plain_jwt 100 "ada@relays.dev")
      ≡ err (api_exception 401 ErrorCode.invalid_access_token "Missing required token claim"))
    × (decode_registration_token plain_jwt 101 (create_access_token plain_jwt 100 5)
        ≡ err (api_exception 401 ErrorCode.invalid_request "Missing required token claim"))
tokens_kept_apart_example = tokens_kept_apart plain_jwt plain_jwt-IsPyJwt 5 "ada@relays.dev" 100 101

abbrev otp_code : List ℕ
otp_code = 49 ∷ 50 ∷ 51 ∷ 52 ∷ 53 ∷ 54 ∷ []

abbrev old_token : List ℕ
old_token = 111 ∷ []

abbrev new_token : List ℕ
new_token = 110 ∷ []

abbrev digest : List ℕ → Digest
digest s = if same_text s otp_code then 1 else if same_text s old_token then 2 else 3

abbrev signup : relays.Auth.Registration.Env
signup = record { now = 100; clock = 100; sha512 = digest; otp = otp_code; otp_id = 9 }

abbrev open_otp : RegistrationOtp
open_otp = record {
  id = 9;
  email = "ada@relays.dev";
  otp_hash = 1;
  expires_at = 400;
  consumed_at = none;
  created_at = 100;
}

abbrev used_otp : RegistrationOtp
used_otp = record open_otp { id = 8; consumed_at = some 150 }

verify_registration_otp_once_example :
    verify_registration_otp plain_jwt signup "ada@relays.dev" otp_code
      (verify_registration_otp plain_jwt signup "ada@relays.dev" otp_code (open_otp ∷ [])).1
    ≡ (
      err (api_exception 401 ErrorCode.invalid_otp "Invalid OTP"),
      (verify_registration_otp plain_jwt signup "ada@relays.dev" otp_code (open_otp ∷ [])).1,
    )
unfolding verify_registration_otp verify_in_transaction verify_found get_registration_otp_by_email
    find_first consume_registration_otp update_returning exists_row create_registration_token
verify_registration_otp_once_example =
    verify_registration_otp_once plain_jwt signup signup "ada@relays.dev" otp_code otp_code
      (create_registration_token plain_jwt 100 "ada@relays.dev") (open_otp ∷ []) refl

request_registration_otp_lem_example :
    request_registration_otp signup true [] "ada@relays.dev" [] ≡ (
      ok tt,
      delete_registration_otp "ada@relays.dev" [] ++ requested_otp signup "ada@relays.dev" ∷ [],
    )
unfolding get_user_by_email find_first exists_row
request_registration_otp_lem_example =
    request_registration_otp_lem signup [] "ada@relays.dev" refl [] (omega arith) refl refl

consumed_otp_blocks_example :
    request_registration_otp signup true [] "ada@relays.dev" (used_otp ∷ []) ≡ (
      err (
          api_exception 409 ErrorCode.conflict
            "Unable to generate a verification code at this time. Please try again."),
      used_otp ∷ [],
    )
unfolding get_user_by_email find_first exists_row get_registration_otp_by_email
consumed_otp_blocks_example =
    consumed_otp_blocks signup [] "ada@relays.dev" refl (used_otp ∷ []) (omega arith) refl refl

abbrev login : Env
login = record {
  now = 100;
  clock = 100;
  sha512 = digest;
  otp = otp_code;
  otp_id = 9;
  refresh_token = new_token;
  session_id = 30;
}

abbrev ada : User
ada = record {
  id = 5;
  email = "ada@relays.dev";
  name = 65 ∷ 100 ∷ 97 ∷ [];
  is_verified = true;
  created_at = 1;
  updated_at = 1;
}

abbrev old_session : Session
old_session = record {
  id = 20;
  user_id = 5;
  refresh_token_hash = 2;
  expires_at = 5000;
  revoked_at = none;
  created_at = 50;
}

abbrev accounts : AuthDatabase
accounts = record {
  users = ada ∷ [];
  workspaces = [];
  workspace_members =
      record { workspace_id = 40; user_id = 5; role = WorkspaceMemberRole.owner; joined_at = 1 }
      ∷ [];
  registration_otps = [];
  login_otps =
      record {
        id = 9;
        user_id = 5;
        otp_hash = 1;
        expires_at = 400;
        consumed_at = none;
        created_at = 100;
      }
      ∷ [];
  sessions = old_session ∷ [];
}

authenticate_account_once_example :
    authenticate_account plain_jwt login "ada@relays.dev" otp_code
      (authenticate_account plain_jwt login "ada@relays.dev" otp_code accounts).1
    ≡ (
      err (api_exception 401 ErrorCode.invalid_otp "Invalid OTP"),
      (authenticate_account plain_jwt login "ada@relays.dev" otp_code accounts).1,
    )
unfolding authenticate_account authenticate_in_transaction authenticate_user check_login_otp
    after_consumed open_session on_login_otps on_sessions get_user_by_email find_first
    get_login_otp_by_user_id consume_login_otp update_returning update_where exists_row
    get_workspace_context create_session insert_returning create_access_token
authenticate_account_once_example =
    authenticate_account_once plain_jwt login login "ada@relays.dev" otp_code otp_code
      (record { access_token = create_access_token plain_jwt 100 5; refresh_token = new_token }) ada
      accounts refl refl

refresh_access_token_once_example :
    refresh_access_token plain_jwt login accounts.users old_token
      (refresh_access_token plain_jwt login accounts.users old_token accounts.sessions).1
    ≡ (
      err invalid_refresh_token,
      (refresh_access_token plain_jwt login accounts.users old_token accounts.sessions).1,
    )
unfolding refresh_access_token refresh_in_transaction refresh_session rotate_for
    get_session_by_refresh_token_hash find_first get_user_by_id rotate_session_refresh_token
    exists_row update_returning create_access_token
refresh_access_token_once_example =
    refresh_access_token_once plain_jwt login login accounts.users accounts.users old_token
      (record { access_token = create_access_token plain_jwt 100 5; refresh_token = new_token })
      accounts.sessions (refl, tt) refl refl refl

refresh_after_logout_example :
    refresh_access_token plain_jwt login accounts.users old_token
      (logout 100 digest old_token accounts.sessions).1
    ≡ (err invalid_refresh_token, (logout 100 digest old_token accounts.sessions).1)
unfolding logout logout_in_transaction logout_session get_session_by_refresh_token_hash find_first
    revoke_session exists_row update_returning
refresh_after_logout_example =
    refresh_after_logout plain_jwt 100 login accounts.users old_token accounts.sessions (refl, tt)
      refl

verify_requested_otp_example :
    (verify_registration_otp plain_jwt signup "ada@relays.dev" otp_code
      (request_registration_otp signup true [] "ada@relays.dev" []).1).0
    ≡ ok (create_registration_token plain_jwt 100 "ada@relays.dev")
unfolding get_user_by_email find_first exists_row
verify_requested_otp_example =
    verify_requested_otp plain_jwt signup signup [] "ada@relays.dev" otp_code [] refl refl refl
      (omega arith) (omega arith)

accounts-IsKeyed : IsKeyed accounts.sessions
unfolding IsKeyed exists_row
accounts-IsKeyed = (refl, tt)

sessions-StandsFor_example :
    let new = digest new_token in
    let expires_at = 100 + 30 * 24 * 60 * 60 in
    StandsFor
      (opened new (record { user_id = 5; expires_at = expires_at }))
      accounts.sessions
      (create_session 30 100 5 new expires_at accounts.sessions)
    × StandsFor
        (renewed (digest old_token) new expires_at)
        accounts.sessions
        (refresh_access_token plain_jwt login accounts.users old_token accounts.sessions)
    × StandsFor
        (closed (digest old_token))
        accounts.sessions
        (logout 100 digest old_token accounts.sessions)
sessions-StandsFor_example =
    sessions-StandsFor plain_jwt login accounts.users 5 old_token accounts.sessions accounts-IsKeyed
