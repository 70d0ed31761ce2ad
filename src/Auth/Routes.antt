-- ===== src/Auth/Routes.antt =====
-- app/modules/auth/api/v1/routes.py with the bodies of schemas/requests.py and schemas/response.py. A
-- route takes its request as it was sent, and gives the result that `respond` makes an answer of, with
-- the status of its decorator.
use relays.Prelude.{ℕ, String, Bool, List, Uuid, Digest, Time, if◌then◌else◌}
use relays.Core.Result.{Result, ok, err, Action, raise}
use relays.Text.{Unicode}
use relays.Auth.Model.{AuthDatabase, User, RegistrationOtp, LoginOtp, Session}
use relays.Auth.Queries.{CurrentUserContext}
use relays.Auth.Token.{Jwt}
use relays.Auth.Registration
use relays.Auth.Registration.{request_registration_otp, verify_registration_otp}
use relays.Auth.Login.{Env, Tokens, request_login_otp, authenticate_account, get_current_user}
use relays.Auth.Sessions.{refresh_access_token, logout}
use relays.Auth.Account.{NewIds, create_account}
use relays.Auth.Guard.{Authorization, authenticate_jwt}
use relays.Auth.Validators.{
  EmailLibrary, email_address, validate_user_name, validate_workspace_name, validate_otp_code,
  validate_refresh_token, request_field, response_field,
}

pub record OtpBody : Type 0 where
  pub email : String
  pub otp : List ℕ

pub record RegisterBody (T : Type 0) : Type 0 where
  pub registration_token : T
  pub name : List ℕ
  pub workspace_name : List ℕ

pub record AuthenticateUserResponse (T : Type 0) : Type 0 where
  pub access_token : T
  pub refresh_token : List ℕ
  pub token_type : String

pub record CurrentUserResponse : Type 0 where
  pub user_id : Uuid
  pub workspace_id : Uuid
  pub name : List ℕ
  pub email : String
  pub workspace_name : List ℕ

-- The libraries that the fields of the bodies call.
pub record Pydantic : Type 0 where
  pub unicode : Unicode
  pub email : EmailLibrary

infixl 5 ◌then◌
abbrev pub ◌then◌ : {A B : Type 0} → Result A → (A → Result B) → Result B
ok a then f = f a
err e then f = err e

module _ (py : Pydantic) where
  -- The fields are validated in order, and the first error is the one that is answered.
  unfoldable pub email_body : String → Result String
  email_body email = request_field "body.email" (email_address py.email email)

  unfoldable pub otp_body : OtpBody → Result OtpBody
  otp_body b = request_field "body.email" (email_address py.email b.email) then λ email.
      request_field "body.otp" (validate_otp_code py.unicode b.otp) then λ otp.
      ok (record { email = email; otp = otp })

  unfoldable pub register_body : {T : Type 0} → RegisterBody T → Result (RegisterBody T)
  register_body b = request_field "body.name" (validate_user_name py.unicode b.name) then λ name.
      request_field "body.workspace_name" (validate_workspace_name py.unicode b.workspace_name)
      then λ workspace_name. ok (record {
        registration_token = b.registration_token;
        name = name;
        workspace_name = workspace_name;
      })

  unfoldable pub refresh_body : List ℕ → Result (List ℕ)
  refresh_body token = request_field "body.refresh_token" (validate_refresh_token py.unicode token)

  -- The responses validate their fields too; an error there is no error of the request.
  unfoldable pub tokens_response : {T : Type 0} → Tokens T → Result (AuthenticateUserResponse T)
  tokens_response t =
      response_field (validate_refresh_token py.unicode t.refresh_token) then λ refresh_token.
      ok (record {
        access_token = t.access_token;
        refresh_token = refresh_token;
        token_type = "Bearer";
      })

  unfoldable pub current_user_response : CurrentUserContext → Result CurrentUserResponse
  current_user_response c = response_field (validate_user_name py.unicode c.name) then λ name.
      response_field (email_address py.email c.email) then λ email.
      response_field (validate_workspace_name py.unicode c.workspace_name) then λ workspace_name.
      ok (record {
        user_id = c.user_id;
        workspace_id = c.workspace_id;
        name = name;
        email = email;
        workspace_name = workspace_name;
      })

-- A body that was accepted goes to the workflow; the workflow's result, to the response.
abbrev pub with_body : {S B A : Type 0} → Result B → (B → Action S A) → Action S A
with_body (ok b) f = f b
with_body (err e) f = raise e

abbrev pub answering : {S A C : Type 0} → (A → Result C) → Action S A → Action S C
answering f m s = let (r, s') = m s in (r then f, s')

abbrev pub registration_message : String
registration_message =
    "If the email address is eligible for registration, a verification code has been sent."

abbrev pub login_message : String
login_message = "If an account exists for this email address, a login code has been sent."

abbrev pub otp_message : String → Unit {0} → Result String
otp_message message _ = ok message

module _ (py : Pydantic) where
  unfoldable pub request_registration_otp_route :
      relays.Auth.Registration.Env
      → (allowed : Bool) → List User
      → (email : String) → Action (List RegistrationOtp) String
  request_registration_otp_route env allowed users email = with_body (email_body py email) (λ e.
      answering (otp_message registration_message) (request_registration_otp env allowed users e))

  unfoldable pub request_login_otp_route :
      Env → (allowed : Bool) → List User → (email : String) → Action (List LoginOtp) String
  request_login_otp_route env allowed users email =
      with_body (email_body py email)
        (λ e. answering (otp_message login_message) (request_login_otp env allowed users e))

  module _ {T : Type 0} (jwt : Jwt T) where
    unfoldable pub verify_registration_otp_route :
        relays.Auth.Registration.Env → OtpBody → Action (List RegistrationOtp) T
    verify_registration_otp_route env b =
        with_body (otp_body py b) (λ v. verify_registration_otp jwt env v.email v.otp)

    unfoldable pub create_account_route :
        Env → NewIds → RegisterBody T → Action AuthDatabase (AuthenticateUserResponse T)
    create_account_route env ids b = with_body (register_body py b) (λ v.
        answering (tokens_response py)
          (create_account jwt env ids py.unicode v.registration_token v.name v.workspace_name))

    unfoldable pub login_route : Env → OtpBody → Action AuthDatabase (AuthenticateUserResponse T)
    login_route env b =
        with_body (otp_body py b)
          (λ v. answering (tokens_response py) (authenticate_account jwt env v.email v.otp))

    unfoldable pub refresh_access_token_route :
        Env → List User → List ℕ → Action (List Session) (AuthenticateUserResponse T)
    refresh_access_token_route env users token =
        with_body (refresh_body py token)
          (λ v. answering (tokens_response py) (refresh_access_token jwt env users v))

    -- The guard is the route's dependency, and comes first.
    unfoldable pub current_user_route :
        (clock : Time) → Authorization T → AuthDatabase → Result CurrentUserResponse
    current_user_route clock authorization db =
        authenticate_jwt jwt clock authorization db then λ caller.
        get_current_user caller.user_id db then λ context. current_user_response py context

  unfoldable pub logout_route :
      (now : Time) → (sha512 : List ℕ → Digest) → List ℕ → Action (List Session) String
  logout_route now sha512 token =
      with_body (refresh_body py token)
        (λ v. answering (otp_message "Logged out successfully.") (logout now sha512 v))
