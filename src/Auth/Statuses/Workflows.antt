-- ===== src/Auth/Statuses/Workflows.antt =====
-- What the workflows raise: the client gets 401, 409, 429 or 500 for it, or 400 for an unusable slug.
use relays.Prelude.{
  ℕ, ◌+◌, ◌*◌, String, ◌≡◌, inl, inr, true, not, ◌&&◌, Option, none, some, List, Uuid, Digest, Time,
  leb, ◌==◌, Bool-cases,
}
use relays.Core.ErrorCode.{ErrorCode}
use relays.Core.Http.{handle, api_exception_handler, global_exception_handler}
use relays.Core.Raises.{
  Raises, Raises-bind, Raises-transaction, Raises-update_returning, Raises-insert_returning,
}
use relays.Core.Result.{Exception, api_exception, unique_violation, check_violation}
use relays.Table.{exists_row}
use relays.Auth.Model.{User, RegistrationOtp, LoginOtp, Session}
use relays.Auth.Queries.{
  get_registration_otp_by_email, consume_registration_otp, registration_otp_check,
  open_otp_of_email, get_user_by_email, login_otp_check, open_otp_of_user, consume_login_otp,
  get_login_otp_by_user_id, get_workspace_context, WorkspaceContext, create_session, session_check,
  same_session, get_session_by_refresh_token_hash, revoke_session, rotate_session_refresh_token,
  get_user_by_id, open_session_of_id, rotated_row, revoked_row,
}
use relays.Auth.Token.{Jwt}
use relays.Auth.Registration
use relays.Auth.Registration.{
  request_registration_otp, replace_otp, issue_otp, forget_otp, forget_open_otp, ignore_otp,
  verify_registration_otp, verify_in_transaction, verify_found, registration_token, invalid_otp,
  no_code_now, too_many_requests, account_exists,
}
use relays.Auth.Login.{
  Env, Tokens, authenticate_account, authenticate_in_transaction, authenticate_user,
  check_login_otp, after_consumed, open_session, tokens_for, on_login_otps, on_sessions,
}
use relays.Auth.Sessions.{
  logout, logout_in_transaction, logout_session, revoked_or_raise, refresh_access_token,
  refresh_in_transaction, refresh_session, rotate_for, rotated_tokens, always_raise,
  refresh_token_expired,
}
use relays.Auth.Statuses.{is_declared, Declared}

module _ (codes : List ℕ) (denied : is_declared 401 codes ≡ true)
    (server_error : is_declared 500 codes ≡ true) where
  abbrev P : Exception → Type 0
  P = Declared codes

  denied-Declared : (code : ErrorCode) (message : String) → P (api_exception 401 code message)
  unfolding handle api_exception_handler
  denied-Declared code message h = denied

  check_violation-Declared : P check_violation
  unfolding handle global_exception_handler
  check_violation-Declared h = server_error

  unique_violation-Declared : P unique_violation
  unfolding handle global_exception_handler
  unique_violation-Declared h = server_error

  -- sessions
  revoked_or_raise-Raises : (o : Option Session) → Raises P (revoked_or_raise o)
  revoked_or_raise-Raises none s = denied-Declared _ _
  revoked_or_raise-Raises (some _) s = tt

  revoke_session-Raises : (now : Time) (id : Uuid) → Raises P (revoke_session now id)
  unfolding revoke_session
  revoke_session-Raises now id =
      Raises-update_returning P session_check (open_session_of_id id) (revoked_row now)
        check_violation-Declared

  logout_session-Raises : (now : Time) (o : Option Session) → Raises P (logout_session now o)
  unfolding logout_session
  logout_session-Raises now none t = denied-Declared _ _
  logout_session-Raises now (some s) t =
      Raises-bind P {B = Unit {0}} (revoke_session now s.id) revoked_or_raise
        (revoke_session-Raises now s.id) revoked_or_raise-Raises t

  pub logout-Raises :
      (now : Time) (sha512 : List ℕ → Digest) (token : List ℕ) → Raises P (logout now sha512 token)
  unfolding logout logout_in_transaction
  logout-Raises now sha512 token =
      Raises-transaction P (logout_in_transaction now sha512 token)
        (λ t. logout_session-Raises now (get_session_by_refresh_token_hash (sha512 token) t) t)

  module _ {T : Type 0} (jwt : Jwt T) (env : Env) where
    rotated_tokens-Raises :
        (user : User) (o : Option Session) → Raises P (rotated_tokens jwt env user o)
    rotated_tokens-Raises user none s = denied-Declared _ _
    rotated_tokens-Raises user (some _) s = tt

    rotate-Raises :
        (id : Uuid) (hash : Digest) (at : Time) → Raises P (rotate_session_refresh_token id hash at)
    unfolding rotate_session_refresh_token
    rotate-Raises id hash at t =
        elim (Bool-cases (
          exists_row (open_session_of_id id) t
          && exists_row (λ s. s.refresh_token_hash == hash && not (s.id == id)) t)) [
            | inl taken ↦ rw taken unique_violation-Declared
            | inr free ↦ rw free (
                Raises-update_returning P session_check (open_session_of_id id)
                  (rotated_row hash at) check_violation-Declared t)
          ]

    rotate_for-Raises : (s : Session) (o : Option User) → Raises P (rotate_for jwt env s o)
    unfolding rotate_for
    rotate_for-Raises s none t = denied-Declared _ _
    rotate_for-Raises s (some user) t =
        Raises-bind P {B = Tokens T}
          (rotate_session_refresh_token s.id (env.sha512 env.refresh_token)
            (env.clock + 30 * 24 * 60 * 60))
          (rotated_tokens jwt env user)
          (rotate-Raises s.id (env.sha512 env.refresh_token) (env.clock + 30 * 24 * 60 * 60))
          (rotated_tokens-Raises user) t

    refresh_session-Raises :
        (users : List User) (o : Option Session) → Raises P (refresh_session jwt env users o)
    unfolding refresh_session
    refresh_session-Raises users none t = denied-Declared _ _
    refresh_session-Raises users (some s) t = elim (Bool-cases (leb s.expires_at env.clock)) [
      | inr live ↦ rw live (rotate_for-Raises s (get_user_by_id s.user_id users) t)
      | inl late ↦ rw late (
          Raises-bind P {B = Tokens T} (revoke_session env.now s.id)
            (always_raise refresh_token_expired) (revoke_session-Raises env.now s.id)
            (λ a u. denied-Declared _ _) t)
    ]

    pub refresh-Raises :
        (users : List User) (token : List ℕ) → Raises P (refresh_access_token jwt env users token)
    unfolding refresh_access_token refresh_in_transaction
    refresh-Raises users token =
        Raises-transaction P (refresh_in_transaction jwt env users token) (λ t.
          refresh_session-Raises users (get_session_by_refresh_token_hash (env.sha512 token) t) t)

    -- login
    create_session-Raises :
        (user_id : Uuid)
        → Raises P (
            on_sessions (
              create_session env.session_id env.now user_id
                (env.sha512 env.refresh_token)
                (env.clock + 30 * 24 * 60 * 60)))
    unfolding on_sessions create_session
    create_session-Raises user_id db =
        Raises-insert_returning P session_check same_session _ check_violation-Declared
          unique_violation-Declared db.sessions

    open_session-Raises :
        (user : User) (o : Option WorkspaceContext) → Raises P (open_session jwt env user o)
    unfolding open_session
    open_session-Raises user none db = denied-Declared _ _
    open_session-Raises user (some _) db =
        Raises-bind P {B = Tokens T}
          (on_sessions (
            create_session env.session_id env.now user.id (env.sha512 env.refresh_token)
              (env.clock + 30 * 24 * 60 * 60)))
          (tokens_for jwt env user.id) (create_session-Raises user.id) (λ a u. tt) db

    after_consumed-Raises :
        (user : User) (o : Option LoginOtp) → Raises P (after_consumed jwt env user o)
    unfolding after_consumed
    after_consumed-Raises user none db = denied-Declared _ _
    after_consumed-Raises user (some _) db =
        open_session-Raises user (get_workspace_context user.id db.users db.workspace_members) db

    consume-Raises : (user_id : Uuid) → Raises P (on_login_otps (consume_login_otp env.now user_id))
    unfolding on_login_otps consume_login_otp
    consume-Raises user_id db =
        Raises-update_returning P login_otp_check (open_otp_of_user user_id) _
          check_violation-Declared db.login_otps

    check_login_otp-Raises :
        (otp : List ℕ) (user : User) (o : Option LoginOtp)
        → Raises P (check_login_otp jwt env otp user o)
    unfolding check_login_otp on_login_otps
    check_login_otp-Raises otp user none db = denied-Declared _ _
    check_login_otp-Raises otp user (some row) db =
        elim (Bool-cases (leb row.expires_at env.clock)) [
          | inl late ↦ rw late (denied-Declared _ _)
          | inr early ↦ elim (Bool-cases (env.sha512 otp == row.otp_hash)) [
            | inr wrong ↦ rw (early, wrong) (denied-Declared _ _)
            | inl right ↦
                rw (early, right)
                  (Raises-bind P {B = Tokens T} (on_login_otps (consume_login_otp env.now user.id))
                    (after_consumed jwt env user) (consume-Raises user.id)
                    (after_consumed-Raises user) db)
          ]
        ]

    authenticate_user-Raises :
        (otp : List ℕ) (o : Option User) → Raises P (authenticate_user jwt env otp o)
    unfolding authenticate_user
    authenticate_user-Raises otp none db = denied-Declared _ _
    authenticate_user-Raises otp (some user) db =
        check_login_otp-Raises otp user (get_login_otp_by_user_id user.id db.login_otps) db

    pub authenticate-Raises :
        (email : String) (otp : List ℕ) → Raises P (authenticate_account jwt env email otp)
    unfolding authenticate_account authenticate_in_transaction
    authenticate-Raises email otp =
        Raises-transaction P (authenticate_in_transaction jwt env email otp)
          (λ db. authenticate_user-Raises otp (get_user_by_email email db.users) db)

  module _ {T : Type 0} (jwt : Jwt T) (env : relays.Auth.Registration.Env) where
    registration_token-Raises :
        (email : String) (o : Option RegistrationOtp)
        → Raises P (registration_token jwt env email o)
    registration_token-Raises email none t = denied-Declared _ _
    registration_token-Raises email (some _) t = tt

    verify_found-Raises :
        (email : String) (otp : List ℕ) (o : Option RegistrationOtp)
        → Raises P (verify_found jwt env email otp o)
    unfolding verify_found consume_registration_otp
    verify_found-Raises email otp none t = denied-Declared _ _
    verify_found-Raises email otp (some row) t = elim (Bool-cases (leb row.expires_at env.clock)) [
      | inl late ↦ rw late (denied-Declared _ _)
      | inr early ↦ elim (Bool-cases (env.sha512 otp == row.otp_hash)) [
        | inr wrong ↦ rw (early, wrong) (denied-Declared _ _)
        | inl right ↦
            rw (early, right)
              (Raises-bind P {B = T} (consume_registration_otp env.now email)
                (registration_token jwt env email)
                (Raises-update_returning P registration_otp_check (open_otp_of_email email) _
                  check_violation-Declared)
                (registration_token-Raises email) t)
      ]
    ]

    pub verify-Raises :
        (email : String) (otp : List ℕ) → Raises P (verify_registration_otp jwt env email otp)
    unfolding verify_registration_otp verify_in_transaction
    verify-Raises email otp =
        Raises-transaction P (verify_in_transaction jwt env email otp)
          (λ t. verify_found-Raises email otp (get_registration_otp_by_email email t) t)
