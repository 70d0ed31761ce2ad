-- ===== src/Auth/Login.antt =====
-- app/modules/auth/workflows/login and app/modules/auth/workflows/get_current_user.py.
pub mod SingleUse
use relays.Prelude.{
  ℕ, zero, suc, ◌+◌, ◌-◌, ◌*◌, ◌^◌, ◌≤◌, ◌<◌, min, String, ◌≡◌, refl, sym, ap, subst, ◌∙◌, ◌≢◌, ◌⊎◌,
  inl, inr, Bool, true, false, not, ◌&&◌, ◌||◌, Option, none, some, List, [], ◌∷◌, ◌++◌, map, arith,
  str_eq, Uuid, Digest, Time, ltb, leb, ◌==◌, if◌then◌else◌, Bool-cases, Option-cases, ==_refl,
  is_some, map_option, All, length, take, All-append, All-map, length-append,
}
use relays.Core.ErrorCode.{ErrorCode}
use relays.Core.Result.{
  Exception, Result, ok, err, Action, api_exception, pure, raise, raise_if, on_unique_violation,
  transaction, ◌>>=◌, ◌>>◌,
}
use relays.Auth.Model.{AuthDatabase, User, LoginOtp, Session}
use relays.Auth.Queries.{
  create_login_otp, get_login_otp_by_user_id, consume_login_otp, delete_login_otp,
  get_user_by_email, get_workspace_context, create_session, WorkspaceContext, CurrentUserContext,
  get_current_user_context,
}
use relays.Auth.Token.{Jwt, create_access_token}
use relays.Auth.Registration.{too_many_requests, no_code_now, invalid_otp}

-- What a call takes from outside: the transaction's `now()`, the clock of Python, SHA-512, the drawn
-- password, the drawn refresh token, and the UUIDs of the rows. Instants are whole seconds.
pub record Env : Type 0 where
  pub now : Time
  pub clock : Time
  pub sha512 : List ℕ → Digest
  pub otp : List ℕ
  pub otp_id : Uuid
  pub refresh_token : List ℕ
  pub session_id : Uuid

pub record Tokens (T : Type 0) : Type 0 where
  pub access_token : T
  pub refresh_token : List ℕ

module _ {A : Type 0} where
  unfoldable pub on_login_otps : Action (List LoginOtp) A → Action AuthDatabase A
  on_login_otps m db = let (r, t) = m db.login_otps in (r, record db { login_otps = t })

  unfoldable pub on_sessions : Action (List Session) A → Action AuthDatabase A
  on_sessions m db = let (r, t) = m db.sessions in (r, record db { sessions = t })

abbrev pub invalid_credentials : Exception
invalid_credentials = api_exception 401 ErrorCode.invalid_credentials "Invalid Credentials"

abbrev pub forget_login_otp : Uuid → Action (List LoginOtp) (Unit {0})
forget_login_otp user_id t = (ok tt, delete_login_otp user_id t)

abbrev pub ignore_login_otp : LoginOtp → Action (List LoginOtp) (Unit {0})
ignore_login_otp _ = pure tt

unfoldable pub issue_login_otp : Env → Uuid → Action (List LoginOtp) (Unit {0})
issue_login_otp env user_id =
    create_login_otp env.otp_id env.now user_id (env.sha512 env.otp) (env.clock + 5 * 60)
    >>= ignore_login_otp

-- For an unknown address nothing is written, and the answer is the same.
unfoldable pub replace_login_otp : Env → Option User → Action (List LoginOtp) (Unit {0})
replace_login_otp env none = pure tt
replace_login_otp env (some user) = forget_login_otp user.id >> issue_login_otp env user.id

-- Only the look-up of the user is inside the transaction: the DELETE and the INSERT stand alone.
unfoldable pub request_login_otp :
    Env → (allowed : Bool) → (users : List User) → String → Action (List LoginOtp) (Unit {0})
request_login_otp env allowed users email =
    raise_if (not allowed) too_many_requests
    >> on_unique_violation no_code_now (replace_login_otp env (get_user_by_email email users))

module _ {T : Type 0} (jwt : Jwt T) (env : Env) where
  abbrev pub tokens_for : Uuid → Session → Action AuthDatabase (Tokens T)
  tokens_for user_id _ = pure (record {
    access_token = create_access_token jwt env.clock user_id;
    refresh_token = env.refresh_token;
  })

  unfoldable pub open_session : User → Option WorkspaceContext → Action AuthDatabase (Tokens T)
  open_session user none = raise invalid_credentials
  open_session user (some _) =
      on_sessions (
        create_session env.session_id env.now user.id (env.sha512 env.refresh_token)
          (env.clock + 30 * 24 * 60 * 60))
      >>= tokens_for user.id

  unfoldable pub after_consumed : User → Option LoginOtp → Action AuthDatabase (Tokens T)
  after_consumed user none db = raise invalid_otp db
  after_consumed user (some _) db =
      open_session user (get_workspace_context user.id db.users db.workspace_members) db

  unfoldable pub check_login_otp :
      (otp : List ℕ) → User → Option LoginOtp → Action AuthDatabase (Tokens T)
  check_login_otp otp user none = raise invalid_otp
  check_login_otp otp user (some row) =
      if leb row.expires_at env.clock
      then on_login_otps (forget_login_otp user.id) >> raise invalid_otp
      else if not (env.sha512 otp == row.otp_hash)
      then raise invalid_otp
      else on_login_otps (consume_login_otp env.now user.id) >>= after_consumed user

  unfoldable pub authenticate_user : (otp : List ℕ) → Option User → Action AuthDatabase (Tokens T)
  authenticate_user otp none db = raise invalid_credentials db
  authenticate_user otp (some user) db =
      check_login_otp otp user (get_login_otp_by_user_id user.id db.login_otps) db

  unfoldable pub authenticate_in_transaction :
      (email : String) (otp : List ℕ) → Action AuthDatabase (Tokens T)
  authenticate_in_transaction email otp db =
      authenticate_user otp (get_user_by_email email db.users) db

  unfoldable pub authenticate_account :
      (email : String) (otp : List ℕ) → Action AuthDatabase (Tokens T)
  authenticate_account email otp = transaction (authenticate_in_transaction email otp)

abbrev user_not_found : Exception
user_not_found = api_exception 404 ErrorCode.not_found "User not found"

abbrev context_or_raise : Option CurrentUserContext → Result CurrentUserContext
context_or_raise none = err user_not_found
context_or_raise (some context) = ok context

unfoldable pub get_current_user : Uuid → AuthDatabase → Result CurrentUserContext
get_current_user user_id db =
    context_or_raise (get_current_user_context user_id db.users db.workspace_members db.workspaces)
