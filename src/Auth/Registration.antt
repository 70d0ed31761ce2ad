-- ===== src/Auth/Registration.antt =====
-- app/modules/auth/workflows/registration: request_otp.py and verify_otp.py. Of the database they
-- write the table registration_otp only, and read users.
pub mod SingleUse
pub mod Roundtrip
pub mod Verified
use relays.Prelude.{
  ℕ, zero, suc, ◌+◌, ◌-◌, ◌*◌, ◌^◌, ◌≤◌, ◌<◌, min, String, ◌≡◌, refl, sym, ap, subst, ◌∙◌, ◌≢◌, ◌⊎◌,
  inl, inr, Bool, true, false, not, ◌&&◌, ◌||◌, Option, none, some, List, [], ◌∷◌, ◌++◌, map, arith,
  str_eq, Uuid, Digest, Time, ltb, leb, ◌==◌, if◌then◌else◌, Bool-cases, Option-cases, ==_refl,
  is_some, map_option, All, length, take, All-append, All-map, length-append,
}
use relays.Core.ErrorCode.{ErrorCode}
use relays.Core.Result.{
  Exception, Result, ok, err, Action, api_exception, pure, raise, raise_if, on_unique_violation,
  transaction, ◌>>=◌, ◌>>◌,
}
use relays.Auth.Model.{User, RegistrationOtp}
use relays.Auth.Queries.{
  create_registration_otp, get_registration_otp_by_email, consume_registration_otp,
  delete_registration_otp, get_user_by_email,
}
use relays.Auth.Token.{Jwt, create_registration_token}

-- What a call takes from outside: the transaction's `now()`, the clock of Python, SHA-512, the drawn
-- one-time password and the UUID of its row. Instants are whole seconds.
pub record Env : Type 0 where
  pub now : Time
  pub clock : Time
  pub sha512 : List ℕ → Digest
  pub otp : List ℕ
  pub otp_id : Uuid

abbrev pub too_many_requests : Exception
too_many_requests =
    api_exception 429 ErrorCode.rate_limit_exceeded "Too many OTP requests. Please try again later."

abbrev pub account_exists : Exception
account_exists =
    api_exception 409 ErrorCode.conflict "An account already exists for this email address."

abbrev pub no_code_now : String
no_code_now = "Unable to generate a verification code at this time. Please try again."

abbrev pub invalid_otp : Exception
invalid_otp = api_exception 401 ErrorCode.invalid_otp "Invalid OTP"

-- DELETE, as a statement that returns nothing.
abbrev pub forget_otp : String → Action (List RegistrationOtp) (Unit {0})
forget_otp email t = (ok tt, delete_registration_otp email t)

abbrev pub forget_open_otp :
    String → Option RegistrationOtp → Action (List RegistrationOtp) (Unit {0})
forget_open_otp email none = pure tt
forget_open_otp email (some _) = forget_otp email

abbrev pub ignore_otp : RegistrationOtp → Action (List RegistrationOtp) (Unit {0})
ignore_otp _ = pure tt

-- The new password, which lives for five minutes.
unfoldable pub issue_otp : Env → String → Action (List RegistrationOtp) (Unit {0})
issue_otp env email =
    create_registration_otp env.otp_id env.now email (env.sha512 env.otp) (env.clock + 5 * 60)
    >>= ignore_otp

unfoldable pub replace_otp : Env → String → Action (List RegistrationOtp) (Unit {0})
replace_otp env email t =
    (forget_open_otp email (get_registration_otp_by_email email t) >> issue_otp env email) t

-- `allowed` is the answer of the rate limiter, `users` the table of accounts.
unfoldable pub request_registration_otp :
    Env → (allowed : Bool) → (users : List User) → String → Action (List RegistrationOtp) (Unit {0})
request_registration_otp env allowed users email =
    raise_if (not allowed) too_many_requests
    >> on_unique_violation no_code_now (
        transaction (
          raise_if (is_some (get_user_by_email email users)) account_exists
          >> replace_otp env email))

module _ {T : Type 0} (jwt : Jwt T) (env : Env) where
  abbrev pub registration_token : String → Option RegistrationOtp → Action (List RegistrationOtp) T
  registration_token email none = raise invalid_otp
  registration_token email (some _) = pure (create_registration_token jwt env.clock email)

  unfoldable pub verify_found :
      (email : String) (otp : List ℕ) → Option RegistrationOtp → Action (List RegistrationOtp) T
  verify_found email otp none = raise invalid_otp
  verify_found email otp (some row) =
      if leb row.expires_at env.clock
      then forget_otp email >> raise invalid_otp
      else if not (env.sha512 otp == row.otp_hash)
      then raise invalid_otp
      else consume_registration_otp env.now email >>= registration_token email

  unfoldable pub verify_in_transaction :
      (email : String) (otp : List ℕ) → Action (List RegistrationOtp) T
  verify_in_transaction email otp t =
      verify_found email otp (get_registration_otp_by_email email t) t

  unfoldable pub verify_registration_otp :
      (email : String) (otp : List ℕ) → Action (List RegistrationOtp) T
  verify_registration_otp email otp = transaction (verify_in_transaction email otp)
