-- ===== src/Auth/Login/SingleUse.antt =====
-- Login passwords are used once.
use relays.Prelude.{
  ℕ, ◌+◌, ◌*◌, String, ◌≡◌, refl, inl, inr, Option, none, some, List, arith, Uuid, leb, ◌==◌,
  Bool-cases,
}
use relays.Core.ErrorCode.{ErrorCode}
use relays.Core.Result.{Result, ok, err, Action, api_exception}
use relays.Core.Triple.{OnOk, OnOk-bind, OnOk-transaction, OnOk-result, transaction_err}
use relays.Table.Laws.{update_returning_cases, find_first-update_where}
use relays.Auth.Model.{AuthDatabase, User, LoginOtp, Session}
use relays.Auth.Queries.{
  get_login_otp_by_user_id, consume_login_otp, login_otp_check, open_otp_of_user, get_user_by_email,
  get_workspace_context, create_session, WorkspaceContext,
}
use relays.Auth.Token.{Jwt}
use relays.Auth.Registration.{invalid_otp}
use relays.Auth.Login.{
  Env, Tokens, on_login_otps, on_sessions, open_session, tokens_for, after_consumed,
  check_login_otp, authenticate_user, authenticate_in_transaction, authenticate_account,
}

-- The accounts are as before, and the user has no open password.
abbrev IsUsed : List User → Uuid → AuthDatabase → Type 0
IsUsed users user_id db =
    (db.users ≡ users) × (get_login_otp_by_user_id user_id db.login_otps ≡ none)

module _ {T : Type 0} (jwt : Jwt T) (env : Env) (users : List User) (user : User) where
  abbrev Used : {A : Type 0} → A → AuthDatabase → Type 0
  Used _ db = IsUsed users user.id db

  consume-IsUsed :
      (db : AuthDatabase)
      → db.users ≡ users
      → OnOk Used (on_login_otps (consume_login_otp env.now user.id) db)
  unfolding on_login_otps consume_login_otp get_login_otp_by_user_id
  consume-IsUsed db same =
      elim (update_returning_cases login_otp_check (open_otp_of_user user.id)
        (λ o. record o { consumed_at = some env.now }) db.login_otps) [
          | inl broken ↦ rw (broken, OnOk) tt
          | inr done ↦
              rw (done, OnOk)
                (
                  same,
                  find_first-update_where (open_otp_of_user user.id)
                      (λ o. record o { consumed_at = some env.now }) db.login_otps
                      (λ o. ground arith),
                )
        ]

  session_result-IsUsed :
      (r : Result Session) (t : List Session) (db : AuthDatabase)
      → IsUsed users user.id db
      → OnOk Used (r, record db { sessions = t })
  session_result-IsUsed (ok a) t db h = h
  session_result-IsUsed (err e) t db h = tt

  sessions-IsUsed :
      (m : Action (List Session) Session) (db : AuthDatabase)
      → IsUsed users user.id db
      → OnOk Used (on_sessions m db)
  unfolding on_sessions
  sessions-IsUsed m db h = session_result-IsUsed (m db.sessions).0 (m db.sessions).1 db h

  open_session-IsUsed :
      (o : Option WorkspaceContext) (db : AuthDatabase)
      → IsUsed users user.id db
      → OnOk Used (open_session jwt env user o db)
  unfolding open_session
  open_session-IsUsed none db h = tt
  open_session-IsUsed (some _) db h =
      let create =
        create_session env.session_id env.now user.id (env.sha512 env.refresh_token)
          (env.clock + 30 * 24 * 60 * 60) in
      OnOk-bind {B = Tokens T} Used Used (on_sessions create) (tokens_for jwt env user.id) db
        (sessions-IsUsed create db h) (λ a u k. k)

  after_consumed-IsUsed :
      (o : Option LoginOtp) (db : AuthDatabase)
      → IsUsed users user.id db
      → OnOk Used (after_consumed jwt env user o db)
  unfolding after_consumed
  after_consumed-IsUsed none db h = tt
  after_consumed-IsUsed (some _) db h =
      open_session-IsUsed (get_workspace_context user.id db.users db.workspace_members) db h

  check_login_otp-IsUsed :
      (otp : List ℕ) (o : Option LoginOtp) (db : AuthDatabase)
      → db.users ≡ users
      → OnOk Used (check_login_otp jwt env otp user o db)
  unfolding check_login_otp on_login_otps
  check_login_otp-IsUsed otp none db same = tt
  check_login_otp-IsUsed otp (some row) db same = elim (Bool-cases (leb row.expires_at env.clock)) [
    | inl late ↦ rw late tt
    | inr early ↦ elim (Bool-cases (env.sha512 otp == row.otp_hash)) [
      | inr wrong ↦ rw (early, wrong) tt
      | inl right ↦
          rw (early, right)
            (OnOk-bind {B = Tokens T} Used Used (on_login_otps (consume_login_otp env.now user.id))
              (after_consumed jwt env user) db (consume-IsUsed db same) after_consumed-IsUsed)
    ]
  ]

-- After a login that gave tokens, every further login for that address, by whatever password and at
-- whatever time, is refused and writes nothing, until a new password is requested.
pub authenticate_account_once :
    {T : Type 0} (jwt : Jwt T) (env later : Env) (email : String) (otp otp' : List ℕ)
    (tokens : Tokens T) (user : User) (db : AuthDatabase)
    → get_user_by_email email db.users ≡ some user
    → (authenticate_account jwt env email otp db).0 ≡ ok tokens
    → authenticate_account jwt later email otp' (authenticate_account jwt env email otp db).1 ≡ (
      err (api_exception 401 ErrorCode.invalid_otp "Invalid OTP"),
      (authenticate_account jwt env email otp db).1,
    )
unfolding authenticate_account authenticate_in_transaction authenticate_user check_login_otp
authenticate_account_once jwt env later email otp otp' tokens user db found done =
    let db' = (authenticate_account jwt env email otp db).1 in
    let body : OnOk (λ _ u. IsUsed db.users user.id u)
        (authenticate_in_transaction jwt env email otp db) =
      rw found (
        check_login_otp-IsUsed jwt env db.users user otp
          (get_login_otp_by_user_id user.id db.login_otps) db refl) in
    let used : IsUsed db.users user.id db' =
      OnOk-result (λ _ u. IsUsed db.users user.id u) (authenticate_account jwt env email otp db)
        done
        (OnOk-transaction (λ _ u. IsUsed db.users user.id u)
          (authenticate_in_transaction jwt env email otp) db body) in
    let refused : authenticate_in_transaction jwt later email otp' db' ≡ (err invalid_otp, db') =
      rw (used.0, found, used.1) refl in
    transaction_err (authenticate_in_transaction jwt later email otp') refused
