-- ===== src/Auth/Validators.antt =====
-- app/modules/auth/schemas/validators.py and the fields of schemas/requests.py that use it.
pub mod Normal
use Prim.Native.String
use relays.Prelude.{
  ℕ, zero, suc, ◌+◌, ◌-◌, ◌*◌, ◌^◌, ◌≤◌, ◌<◌, min, String, ◌≡◌, refl, sym, ap, subst, ◌∙◌, ◌≢◌, ◌⊎◌,
  inl, inr, Bool, true, false, not, ◌&&◌, ◌||◌, Option, none, some, List, [], ◌∷◌, ◌++◌, map, arith,
  str_eq, Uuid, Digest, Time, ltb, leb, ◌==◌, if◌then◌else◌, Bool-cases, Option-cases, ==_refl,
  is_some, map_option, All, length, take, All-append, All-map, length-append,
}
use relays.Core.Result.{
  Exception, Result, ok, err, value_error, request_validation_error, validation_error,
}
use relays.Text.{Unicode, is_nil, strip, split, join, is_one_of}

-- Pydantic's `EmailStr`, which gives a message or the address in its normal form, and `strip` and
-- `lower` on an address.
pub record EmailLibrary : Type 0 where
  pub email_str : String → String ⊎ String
  pub strip : String → String
  pub lower : String → String

unfoldable pub validate_email_address : EmailLibrary → String → String
validate_email_address e value = e.lower (e.strip value)

abbrev pub normal_email : EmailLibrary → String ⊎ String → Result String
normal_email e (inl message) = err (value_error message)
normal_email e (inr value) = ok (validate_email_address e value)

-- `EmailAddress`
unfoldable pub email_address : EmailLibrary → String → Result String
email_address e value = normal_email e (e.email_str value)

unfoldable pub all_digits : Unicode → List ℕ → Bool
all_digits u [] = true
all_digits u (c ∷ s) = u.is_digit c && all_digits u s

abbrev reserved_workspace_names : List String
reserved_workspace_names =
    "owner" ∷ "member" ∷ "api" ∷ "admin" ∷ "support" ∷ "billing" ∷ "settings" ∷ "dashboard" ∷ "auth"
    ∷ "login" ∷ "signup" ∷ []

abbrev pub quoted : String → String
quoted value =
    String.◌++◌ "\""
      (String.◌++◌ value "\" is a reserved workspace name. Please choose a different name.")

module _ (u : Unicode) where
  -- `" ".join(value.strip().split())`
  unfoldable pub normal_name : List ℕ → List ℕ
  normal_name value = join 32 (split u.is_space (strip u.is_space value))

  unfoldable pub checked_user_name : List ℕ → Result (List ℕ)
  checked_user_name value =
      if is_nil value
      then err (value_error "User name cannot be empty")
      else if ltb (length value) 2
      then err (value_error "User name must contain at least 2 characters")
      else if ltb 255 (length value)
      then err (value_error "User name cannot exceed 255 characters")
      else ok value

  unfoldable pub validate_user_name : List ℕ → Result (List ℕ)
  unfolding normal_name checked_user_name
  validate_user_name value = checked_user_name (normal_name value)

  unfoldable pub checked_workspace_name : List ℕ → Result (List ℕ)
  checked_workspace_name value =
      if is_nil value
      then err (value_error "Workspace name cannot be empty. Please provide a workspace name.")
      else if ltb (length value) 3
      then err (value_error "Workspace name must contain at least 3 characters")
      else if ltb 255 (length value)
      then err (value_error "Workspace name cannot exceed 255 characters")
      else if is_one_of (u.lower value) reserved_workspace_names
      then err (value_error (quoted (u.text value)))
      else ok value

  unfoldable pub validate_workspace_name : List ℕ → Result (List ℕ)
  unfolding normal_name checked_workspace_name
  validate_workspace_name value = checked_workspace_name (normal_name value)

  unfoldable pub checked_otp_code : List ℕ → Result (List ℕ)
  checked_otp_code value =
      if not (length value == 6)
      then err (value_error "OTP must contain exactly 6 digits")
      else if not (all_digits u value)
      then err (value_error "OTP must contain only digits")
      else ok value

  unfoldable pub validate_otp_code : List ℕ → Result (List ℕ)
  unfolding checked_otp_code
  validate_otp_code value = checked_otp_code (strip u.is_space value)

  unfoldable pub checked_refresh_token : List ℕ → Result (List ℕ)
  checked_refresh_token value =
      if is_nil value then err (value_error "Refresh token cannot be empty") else ok value

  unfoldable pub validate_refresh_token : List ℕ → Result (List ℕ)
  unfolding checked_refresh_token
  validate_refresh_token value = checked_refresh_token (strip u.is_space value)

-- A field of a request that its validator refuses, as FastAPI reports it, and a field of a response.
abbrev pub request_error : String → Exception → Exception
request_error location (value_error message) =
    request_validation_error location (String.◌++◌ "Value error, " message)
request_error location e = e

abbrev pub request_field : {A : Type 0} → String → Result A → Result A
request_field location (ok a) = ok a
request_field location (err e) = err (request_error location e)

abbrev pub response_error : Exception → Exception
response_error (value_error message) = validation_error
response_error e = e

abbrev pub response_field : {A : Type 0} → Result A → Result A
response_field (ok a) = ok a
response_field (err e) = err (response_error e)
