-- ===== src/Auth/Statuses/Fields.antt =====
-- What the validation of requests and responses raises.
use relays.Prelude.{ℕ, String, ◌≡◌, refl, inl, inr, Bool, true, false, List, arith, if◌then◌else◌}
use relays.Core.Http.{
  Handling, handle, respond, request_validation_exception_handler, global_exception_handler,
}
use relays.Core.Raises.{OnErr, Raises}
use relays.Core.Result.{
  Result, ok, err, Exception, Action, api_exception, http_exception, request_validation_error,
  runtime_error, value_error, permanent_failure, timeout_exception, connect_error, unique_violation,
  check_violation, validation_error,
}
use relays.Text.{strip}
use relays.Auth.Login.{Tokens}
use relays.Auth.Validators.{
  email_address, checked_user_name, validate_user_name, checked_workspace_name,
  validate_workspace_name, checked_otp_code, validate_otp_code, checked_refresh_token,
  validate_refresh_token, request_field, request_error, response_field, response_error,
  normal_email, normal_name,
}
use relays.Auth.Routes.{
  Pydantic, OtpBody, RegisterBody, with_body, answering, ◌then◌, email_body, otp_body,
  register_body, refresh_body, tokens_response,
}
use relays.Auth.Statuses.{is_declared, Declared, DeclaredAnswer}

abbrev pub is_value_error : Exception → Bool
is_value_error (value_error _) = true
is_value_error _ = false

-- The result is a value, or a ValueError.
abbrev pub is_validated : {A : Type 0} → Result A → Bool
is_validated (ok a) = true
is_validated (err e) = is_value_error e

module _ (py : Pydantic) where
  email_validated : (email : String) → is_validated (email_address py.email email) ≡ true
  unfolding email_address
  email_validated email =
      elim (py.email.email_str email) as (λ r. is_validated (normal_email py.email r) ≡ true) [
        | inl message ↦ refl
        | inr value ↦ refl
      ]

  user_name_validated : (name : List ℕ) → is_validated (validate_user_name py.unicode name) ≡ true
  unfolding validate_user_name
  user_name_validated name = checked (normal_name py.unicode name)
    where
      checked : (value : List ℕ) → is_validated (checked_user_name py.unicode value) ≡ true
      checked value = ground arith

  workspace_name_validated :
      (name : List ℕ) → is_validated (validate_workspace_name py.unicode name) ≡ true
  unfolding validate_workspace_name
  workspace_name_validated name = checked (normal_name py.unicode name)
    where
      checked : (value : List ℕ) → is_validated (checked_workspace_name py.unicode value) ≡ true
      checked value = ground arith

  otp_validated : (otp : List ℕ) → is_validated (validate_otp_code py.unicode otp) ≡ true
  unfolding validate_otp_code
  otp_validated otp = checked (strip py.unicode.is_space otp)
    where
      checked : (value : List ℕ) → is_validated (checked_otp_code py.unicode value) ≡ true
      checked value = ground arith

  token_validated : (token : List ℕ) → is_validated (validate_refresh_token py.unicode token) ≡ true
  unfolding validate_refresh_token
  token_validated token = checked (strip py.unicode.is_space token)
    where
      checked : (value : List ℕ) → is_validated (checked_refresh_token py.unicode value) ≡ true
      checked value = ground arith

module _ (codes : List ℕ) where
  pub then_raises :
      {A C : Type 0} (r : Result A) (f : A → Result C)
      → OnErr (Declared codes) r
      → ((a : A) → OnErr (Declared codes) (f a))
      → OnErr (Declared codes) (r then f)
  then_raises (ok a) f h k = k a
  then_raises (err e) f h k = h

  pub answer-Declared :
      {B : Type 0} (h : Handling) (status_code : ℕ) (r : Result B)
      → is_declared status_code codes ≡ true
      → OnErr (Declared codes) r
      → DeclaredAnswer codes (respond h status_code r)
  unfolding respond
  answer-Declared h status_code (ok b) k e = k
  answer-Declared h status_code (err x) k e = e h

  pub Raises-answering :
      {S A C : Type 0} (f : A → Result C) (m : Action S A)
      → Raises (Declared codes) m
      → ((a : A) → OnErr (Declared codes) (f a))
      → Raises (Declared codes) (answering f m)
  Raises-answering f m h k s = then_raises (m s).0 f (h s) k

  pub Raises-with_body :
      {S B A : Type 0} (r : Result B) (f : B → Action S A)
      → OnErr (Declared codes) r
      → ((b : B) → Raises (Declared codes) (f b))
      → Raises (Declared codes) (with_body r f)
  Raises-with_body (ok b) f h k s = k b s
  Raises-with_body (err e) f h k s = h

  module _ (bad_request : is_declared 400 codes ≡ true) where
    request_error-Declared :
        (location : String) (e : Exception)
        → is_value_error e ≡ true
        → Declared codes (request_error location e)
    unfolding handle request_validation_exception_handler
    request_error-Declared location (value_error m) k h = bad_request
    request_error-Declared location (api_exception a b c) k h = cc
    request_error-Declared location (http_exception a b) k h = cc
    request_error-Declared location (request_validation_error a b) k h = cc
    request_error-Declared location (runtime_error a) k h = cc
    request_error-Declared location (permanent_failure a) k h = cc
    request_error-Declared location (timeout_exception a) k h = cc
    request_error-Declared location (connect_error a) k h = cc
    request_error-Declared location unique_violation k h = cc
    request_error-Declared location check_violation k h = cc
    request_error-Declared location validation_error k h = cc

    request_field_raises :
        {A : Type 0} (location : String) (r : Result A)
        → is_validated r ≡ true
        → OnErr (Declared codes) (request_field location r)
    request_field_raises location (ok a) k = tt
    request_field_raises location (err e) k = request_error-Declared location e k

    pub email_body_raises :
        (py : Pydantic) (email : String) → OnErr (Declared codes) (email_body py email)
    unfolding email_body
    email_body_raises py email =
        request_field_raises "body.email" (email_address py.email email) (email_validated py email)

    pub otp_body_raises : (py : Pydantic) (b : OtpBody) → OnErr (Declared codes) (otp_body py b)
    unfolding otp_body
    otp_body_raises py b =
        then_raises (request_field "body.email" (email_address py.email b.email)) _
          (request_field_raises "body.email" (email_address py.email b.email)
            (email_validated py b.email))
          λ email.
            then_raises (request_field "body.otp" (validate_otp_code py.unicode b.otp)) _
              (request_field_raises "body.otp" (validate_otp_code py.unicode b.otp)
                (otp_validated py b.otp))
              λ otp. tt

    pub register_body_raises :
        {T : Type 0} (py : Pydantic) (b : RegisterBody T)
        → OnErr (Declared codes) (register_body py b)
    unfolding register_body
    register_body_raises py b =
        then_raises (request_field "body.name" (validate_user_name py.unicode b.name)) _
          (request_field_raises "body.name" (validate_user_name py.unicode b.name)
            (user_name_validated py b.name))
          λ name.
            then_raises
              (request_field "body.workspace_name"
                (validate_workspace_name py.unicode b.workspace_name))
              _
              (request_field_raises "body.workspace_name"
                (validate_workspace_name py.unicode b.workspace_name)
                (workspace_name_validated py b.workspace_name))
              λ workspace_name. tt

    pub refresh_body_raises :
        (py : Pydantic) (token : List ℕ) → OnErr (Declared codes) (refresh_body py token)
    unfolding refresh_body
    refresh_body_raises py token =
        request_field_raises "body.refresh_token" (validate_refresh_token py.unicode token)
          (token_validated py token)

  module _ (server_error : is_declared 500 codes ≡ true) where
    response_error-Declared :
        (e : Exception) → is_value_error e ≡ true → Declared codes (response_error e)
    unfolding handle global_exception_handler
    response_error-Declared (value_error m) k h = server_error
    response_error-Declared (api_exception a b c) k h = cc
    response_error-Declared (http_exception a b) k h = cc
    response_error-Declared (request_validation_error a b) k h = cc
    response_error-Declared (runtime_error a) k h = cc
    response_error-Declared (permanent_failure a) k h = cc
    response_error-Declared (timeout_exception a) k h = cc
    response_error-Declared (connect_error a) k h = cc
    response_error-Declared unique_violation k h = cc
    response_error-Declared check_violation k h = cc
    response_error-Declared validation_error k h = cc

    response_field_raises :
        {A : Type 0} (r : Result A)
        → is_validated r ≡ true
        → OnErr (Declared codes) (response_field r)
    response_field_raises (ok a) k = tt
    response_field_raises (err e) k = response_error-Declared e k

    pub tokens_response_raises :
        {T : Type 0} (py : Pydantic) (t : Tokens T) → OnErr (Declared codes) (tokens_response py t)
    unfolding tokens_response
    tokens_response_raises py t =
        then_raises (response_field (validate_refresh_token py.unicode t.refresh_token)) _
          (response_field_raises (validate_refresh_token py.unicode t.refresh_token)
            (token_validated py t.refresh_token))
          λ token. tt
