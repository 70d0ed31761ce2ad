-- ===== src/Auth/Statuses/Requests.antt =====
-- What the requests of passwords and the creation of accounts raise.
use relays.Prelude.{
  ℕ, ◌+◌, ◌*◌, String, ◌≡◌, ◌⊎◌, inl, inr, Bool, true, not, Option, none, some, List, str_eq,
  Bool-cases, is_some,
}
use relays.Core.ErrorCode.{ErrorCode}
use relays.Core.Http.{handle, api_exception_handler, global_exception_handler}
use relays.Core.Raises.{
  OnErr, Raises, Raises-bind, Raises-transaction, Raises-on_unique_violation, Raises-raise_if,
  Raises-insert_returning,
}
use relays.Core.Result.{
  Result, ok, err, Exception, api_exception, unique_violation, check_violation, transaction,
  on_unique_violation, raise_if, ◌>>◌,
}
use relays.Text.{Unicode, is_nil, is_one_of}
use relays.Workspaces.{slugify, validate_workspace_slug, reserved_workspace_slugs}
use relays.Auth.Model.{User, Workspace, WorkspaceMember, WorkspaceMemberRole, RegistrationOtp}
use relays.Auth.Queries.{
  create_registration_otp, get_registration_otp_by_email, registration_otp_check,
  same_registration_otp, get_user_by_email, get_workspace_by_slug, create_login_otp,
  login_otp_check, same_login_otp, create_session, session_check, same_session, create_user,
  create_workspace, create_workspace_membership,
}
use relays.Auth.Token.{
  Jwt, JwtError, Payload, Claim, text, decode_registration_token, read_registration,
  registration_token_of, RegistrationTokenPayload, Required, is_text,
}
use relays.Auth.Registration
use relays.Auth.Registration.{
  request_registration_otp, replace_otp, issue_otp, forget_otp, forget_open_otp, ignore_otp,
  no_code_now, too_many_requests, account_exists,
}
use relays.Auth.Login.{
  Env, Tokens, request_login_otp, replace_login_otp, issue_login_otp, forget_login_otp,
  ignore_login_otp, tokens_for, on_sessions,
}
use relays.Auth.Account.{
  NewIds, create_account, account_with_payload, account_with_slug, account_in_transaction,
  add_account, add_workspace, add_membership, add_session, refuse_email, refuse_slug,
  email_registered, name_taken, account_conflict, bad_request_of, on_users, on_workspaces,
  on_members,
}
use relays.Auth.Statuses.{is_declared, Declared}

module _ (codes : List ℕ) (conflict : is_declared 409 codes ≡ true)
    (server_error : is_declared 500 codes ≡ true) where
  abbrev P : Exception → Type 0
  P = Declared codes

  conflict-Declared : (code : ErrorCode) (message : String) → P (api_exception 409 code message)
  unfolding handle api_exception_handler
  conflict-Declared code message h = conflict

  check_violation-Declared : P check_violation
  unfolding handle global_exception_handler
  check_violation-Declared h = server_error

  unique_violation-Declared : P unique_violation
  unfolding handle global_exception_handler
  unique_violation-Declared h = server_error

  module _ (limited : is_declared 429 codes ≡ true) where
    limited-Declared : P too_many_requests
    unfolding handle api_exception_handler
    limited-Declared h = limited

    issue_otp-Raises :
        (env : relays.Auth.Registration.Env) (email : String) → Raises P (issue_otp env email)
    unfolding issue_otp create_registration_otp
    issue_otp-Raises env email =
        Raises-bind P {B = Unit {0}}
          (create_registration_otp env.otp_id env.now email (env.sha512 env.otp)
            (env.clock + 5 * 60))
          ignore_otp
          (Raises-insert_returning P registration_otp_check same_registration_otp _
            check_violation-Declared unique_violation-Declared)
          (λ a t. tt)

    forget_open_otp-Raises :
        (email : String) (o : Option RegistrationOtp) → Raises P (forget_open_otp email o)
    forget_open_otp-Raises email none t = tt
    forget_open_otp-Raises email (some _) t = tt

    replace_otp-Raises :
        (env : relays.Auth.Registration.Env) (email : String) → Raises P (replace_otp env email)
    unfolding replace_otp
    replace_otp-Raises env email t =
        Raises-bind P {B = Unit {0}} (forget_open_otp email (get_registration_otp_by_email email t))
          (λ _. issue_otp env email)
          (forget_open_otp-Raises email (get_registration_otp_by_email email t))
          (λ _. issue_otp-Raises env email) t

    pub request_registration_otp-Raises :
        (env : relays.Auth.Registration.Env) (allowed : Bool) (users : List User) (email : String)
        → Raises P (request_registration_otp env allowed users email)
    unfolding request_registration_otp
    request_registration_otp-Raises env allowed users email =
        let replace =
          raise_if (is_some (get_user_by_email email users)) account_exists
          >> replace_otp env email in
        Raises-bind P {B = Unit {0}} (raise_if (not allowed) too_many_requests)
          (λ _. on_unique_violation no_code_now (transaction replace))
          (Raises-raise_if P (not allowed) too_many_requests limited-Declared)
          (λ _.
            Raises-on_unique_violation P no_code_now (transaction replace) (conflict-Declared _ _) (
              Raises-transaction P replace (
                Raises-bind P {B = Unit {0}}
                  (raise_if (is_some (get_user_by_email email users)) account_exists)
                  (λ _. replace_otp env email)
                  (Raises-raise_if P (is_some (get_user_by_email email users)) account_exists
                    (conflict-Declared _ _))
                  (λ _. replace_otp-Raises env email))))

    replace_login_otp-Raises : (env : Env) (o : Option User) → Raises P (replace_login_otp env o)
    unfolding replace_login_otp issue_login_otp create_login_otp
    replace_login_otp-Raises env none t = tt
    replace_login_otp-Raises env (some user) t =
        Raises-bind P {B = Unit {0}}
          (create_login_otp env.otp_id env.now user.id (env.sha512 env.otp) (env.clock + 5 * 60))
          ignore_login_otp
          (Raises-insert_returning P login_otp_check same_login_otp _ check_violation-Declared
            unique_violation-Declared)
          (λ a u. tt) (forget_login_otp user.id t).1

    pub request_login_otp-Raises :
        (env : Env) (allowed : Bool) (users : List User) (email : String)
        → Raises P (request_login_otp env allowed users email)
    unfolding request_login_otp
    request_login_otp-Raises env allowed users email =
        let replace = replace_login_otp env (get_user_by_email email users) in
        Raises-bind P {B = Unit {0}} (raise_if (not allowed) too_many_requests)
          (λ _. on_unique_violation no_code_now replace)
          (Raises-raise_if P (not allowed) too_many_requests limited-Declared)
          (λ _.
            Raises-on_unique_violation P no_code_now replace (conflict-Declared _ _)
              (replace_login_otp-Raises env (get_user_by_email email users)))

  module _ {T : Type 0} (jwt : Jwt T) (env : Env) (ids : NewIds)
      (denied : is_declared 401 codes ≡ true) (bad_request : is_declared 400 codes ≡ true) where
    denied-Declared : (code : ErrorCode) (message : String) → P (api_exception 401 code message)
    unfolding handle api_exception_handler
    denied-Declared code message h = denied

    bad_request-Declared :
        (code : ErrorCode) (message : String) → P (api_exception 400 code message)
    unfolding handle api_exception_handler
    bad_request-Declared code message h = bad_request

    add_session-Raises :
        (user : User) (m : WorkspaceMember) → Raises P (add_session jwt env ids user m)
    unfolding add_session on_sessions create_session
    add_session-Raises user m =
        Raises-bind P {B = Tokens T}
          (on_sessions (
            create_session env.session_id env.now user.id (env.sha512 env.refresh_token)
              (env.clock + 30 * 24 * 60 * 60)))
          (tokens_for jwt env user.id)
          (λ db.
            Raises-insert_returning P session_check same_session _ check_violation-Declared
              unique_violation-Declared db.sessions)
          (λ a u. tt)

    add_membership-Raises :
        (user : User) (w : Workspace) → Raises P (add_membership jwt env ids user w)
    unfolding add_membership on_members create_workspace_membership
    add_membership-Raises user w =
        Raises-bind P {B = Tokens T}
          (on_members (create_workspace_membership env.now w.id user.id WorkspaceMemberRole.owner))
          (add_session jwt env ids user)
          (λ db.
            Raises-insert_returning P _ _ _ check_violation-Declared unique_violation-Declared
              db.workspace_members)
          (add_session-Raises user)

    add_workspace-Raises :
        (workspace_name slug : List ℕ) (user : User)
        → Raises P (add_workspace jwt env ids workspace_name slug user)
    unfolding add_workspace on_workspaces create_workspace
    add_workspace-Raises workspace_name slug user =
        Raises-bind P {B = Tokens T}
          (on_workspaces (create_workspace ids.workspace_id env.now workspace_name slug))
          (add_membership jwt env ids user)
          (λ db.
            Raises-insert_returning P _ _ _ check_violation-Declared unique_violation-Declared
              db.workspaces)
          (add_membership-Raises user)

    add_account-Raises :
        (email : String) (name workspace_name slug : List ℕ)
        → Raises P (add_account jwt env ids email name workspace_name slug)
    unfolding add_account on_users create_user
    add_account-Raises email name workspace_name slug =
        Raises-bind P {B = Tokens T} (on_users (create_user ids.user_id env.now name email))
          (add_workspace jwt env ids workspace_name slug)
          (λ db.
            Raises-insert_returning P _ _ _ check_violation-Declared unique_violation-Declared
              db.users)
          (add_workspace-Raises workspace_name slug)

    account_in_transaction-Raises :
        (email : String) (name workspace_name slug : List ℕ)
        → Raises P (account_in_transaction jwt env ids email name workspace_name slug)
    unfolding account_in_transaction
    account_in_transaction-Raises email name workspace_name slug =
        let add = add_account jwt env ids email name workspace_name slug in
        Raises-bind P {B = Tokens T} (refuse_email email) (λ _. refuse_slug slug >> add)
          (λ db.
            Raises-raise_if P (is_some (get_user_by_email email db.users)) email_registered
              (conflict-Declared _ _) db)
          (λ _.
            Raises-bind P {B = Tokens T} (refuse_slug slug) (λ _. add)
              (λ db.
                Raises-raise_if P (is_some (get_workspace_by_slug slug db.workspaces)) name_taken
                  (conflict-Declared _ _) db)
              (λ _. add_account-Raises email name workspace_name slug))

    slug_error_raises :
        (slug : List ℕ) → OnErr (λ e. P (bad_request_of e)) (validate_workspace_slug slug)
    unfolding validate_workspace_slug
    slug_error_raises slug = elim (Bool-cases (is_nil slug)) [
      | inl empty ↦ rw empty (bad_request-Declared _ _)
      | inr full ↦ elim (Bool-cases (is_one_of slug reserved_workspace_slugs)) [
        | inl reserved ↦ rw (full, reserved) (bad_request-Declared _ _)
        | inr free ↦ rw (full, free) tt
      ]
    ]

    account_with_slug-Raises :
        (email : String) (name workspace_name slug : List ℕ) (r : Result (Unit {0}))
        → OnErr (λ e. P (bad_request_of e)) r
        → Raises P (account_with_slug jwt env ids email name workspace_name slug r)
    unfolding account_with_slug
    account_with_slug-Raises email name workspace_name slug (err e) k db = k
    account_with_slug-Raises email name workspace_name slug (ok _) k db =
        let body = account_in_transaction jwt env ids email name workspace_name slug in
        Raises-on_unique_violation P account_conflict (transaction body) (conflict-Declared _ _)
          (Raises-transaction P body (account_in_transaction-Raises email name workspace_name slug))
          db

    registration_error_raises :
        (p : Payload) (c : Option Claim) → OnErr P (registration_token_of p c)
    registration_error_raises p none = denied-Declared _ _
    registration_error_raises p (some (text email)) = elim (Bool-cases (str_eq email "")) [
      | inl empty ↦ rw empty (denied-Declared _ _)
      | inr full ↦ rw full tt
    ]
    registration_error_raises p (some (Claim.uuid_text _)) = denied-Declared _ _
    registration_error_raises p (some (Claim.number _)) = denied-Declared _ _
    registration_error_raises p (some Claim.other) = denied-Declared _ _

    read_registration_raises : (r : JwtError ⊎ Payload) → OnErr P (read_registration r)
    read_registration_raises (inl JwtError.expired_signature) = denied-Declared _ _
    read_registration_raises (inl JwtError.missing_required_claim) = denied-Declared _ _
    read_registration_raises (inl JwtError.invalid_issued_at) = denied-Declared _ _
    read_registration_raises (inl JwtError.invalid_issuer) = denied-Declared _ _
    read_registration_raises (inl JwtError.invalid_token) = denied-Declared _ _
    read_registration_raises (inr p) = elim (Bool-cases (is_text p.type "registration")) [
      | inl right ↦ rw right (registration_error_raises p p.email)
      | inr wrong ↦ rw wrong (denied-Declared _ _)
    ]

    account_with_payload-Raises :
        (u : Unicode) (name workspace_name : List ℕ) (r : Result RegistrationTokenPayload)
        → OnErr P r
        → Raises P (account_with_payload jwt env ids u name workspace_name r)
    unfolding account_with_payload
    account_with_payload-Raises u name workspace_name (err e) k db = k
    account_with_payload-Raises u name workspace_name (ok payload) k db =
        let slug = slugify u workspace_name in
        account_with_slug-Raises payload.email name workspace_name slug
          (validate_workspace_slug slug) (slug_error_raises slug) db

    pub create_account-Raises :
        (u : Unicode) (token : T) (name workspace_name : List ℕ)
        → Raises P (create_account jwt env ids u token name workspace_name)
    unfolding create_account decode_registration_token
    create_account-Raises u token name workspace_name =
        account_with_payload-Raises u name workspace_name
          (decode_registration_token jwt env.clock token)
          (read_registration_raises (jwt.decode Required.registration_claims env.clock token))
