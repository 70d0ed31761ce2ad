-- ===== src/Auth/Registration/SingleUse.antt =====
-- Registration passwords are used once.
use relays.Prelude.{
  ℕ, String, ◌≡◌, refl, inl, inr, Option, none, some, List, arith, Time, leb, ◌==◌, Bool-cases,
}
use relays.Core.Result.{ok, err, api_exception}
use relays.Core.ErrorCode.{ErrorCode}
use relays.Core.Triple.{OnOk, OnOk-bind, OnOk-transaction, OnOk-result, transaction_err}
use relays.Table.Laws.{find_first-update_where, update_returning_cases}
use relays.Auth.Model.{RegistrationOtp}
use relays.Auth.Queries.{
  get_registration_otp_by_email, consume_registration_otp, open_otp_of_email,
  registration_otp_check,
}
use relays.Auth.Token.{Jwt}
use relays.Auth.Registration.{
  Env, verify_registration_otp, verify_in_transaction, verify_found, registration_token,
  invalid_otp,
}

abbrev NoneOpen : String → List RegistrationOtp → Type 0
NoneOpen email t = get_registration_otp_by_email email t ≡ none

consume-NoneOpen :
    (now : Time) (email : String) (t : List RegistrationOtp)
    → OnOk (λ _ u. NoneOpen email u) (consume_registration_otp now email t)
unfolding consume_registration_otp get_registration_otp_by_email
consume-NoneOpen now email t =
    elim (update_returning_cases registration_otp_check (open_otp_of_email email)
      (λ o. record o { consumed_at = some now }) t) [
        | inl broken ↦ rw (broken, OnOk) tt
        | inr done ↦
            rw (done, OnOk)
              (find_first-update_where (open_otp_of_email email)
                (λ o. record o { consumed_at = some now }) t (λ o. ground arith))
      ]

module _ {T : Type 0} (jwt : Jwt T) (env : Env) (email : String) (otp : List ℕ) where
  registration_token-NoneOpen :
      (a : Option RegistrationOtp) (u : List RegistrationOtp)
      → NoneOpen email u
      → OnOk (λ _ v. NoneOpen email v) (registration_token jwt env email a u)
  registration_token-NoneOpen none u h = tt
  registration_token-NoneOpen (some _) u h = h

  verify_found-NoneOpen :
      (o : Option RegistrationOtp) (t : List RegistrationOtp)
      → OnOk (λ _ u. NoneOpen email u) (verify_found jwt env email otp o t)
  unfolding verify_found
  verify_found-NoneOpen none t = tt
  verify_found-NoneOpen (some row) t = elim (Bool-cases (leb row.expires_at env.clock)) [
    | inl late ↦ rw (late, OnOk) tt
    | inr early ↦ elim (Bool-cases (env.sha512 otp == row.otp_hash)) [
      | inr wrong ↦ rw (early, wrong, OnOk) tt
      | inl right ↦
          rw (early, right)
            (OnOk-bind {B = T} (λ _ u. NoneOpen email u) (λ _ u. NoneOpen email u)
              (consume_registration_otp env.now email) (registration_token jwt env email) t
              (consume-NoneOpen env.now email t) (registration_token-NoneOpen))
    ]
  ]

  -- Where no open password is in the table, the verification refuses any password and writes nothing.
  pub verify-NoneOpen :
      (t : List RegistrationOtp)
      → NoneOpen email t
      → verify_registration_otp jwt env email otp t ≡ (err invalid_otp, t)
  unfolding verify_registration_otp verify_in_transaction verify_found
  verify-NoneOpen t h =
      let refused : verify_in_transaction jwt env email otp t ≡ (err invalid_otp, t) = rw h refl in
      transaction_err (verify_in_transaction jwt env email otp) refused

-- After a verification that gave a token, every further verification for that address, by whatever
-- password and at whatever time, is refused and writes nothing, until a new password is requested.
pub verify_registration_otp_once :
    {T : Type 0} (jwt : Jwt T) (env later : Env) (email : String) (otp otp' : List ℕ) (token : T)
    (t : List RegistrationOtp)
    → (verify_registration_otp jwt env email otp t).0 ≡ ok token
    → verify_registration_otp jwt later email otp' (verify_registration_otp jwt env email otp t).1
      ≡ (
        err (api_exception 401 ErrorCode.invalid_otp "Invalid OTP"),
        (verify_registration_otp jwt env email otp t).1,
      )
unfolding verify_registration_otp verify_in_transaction
verify_registration_otp_once jwt env later email otp otp' token t done =
    verify-NoneOpen jwt later email otp' (verify_registration_otp jwt env email otp t).1 (
      OnOk-result (λ _ u. NoneOpen email u) (verify_registration_otp jwt env email otp t) done
        (OnOk-transaction (λ _ u. NoneOpen email u) (verify_in_transaction jwt env email otp) t
          (verify_found-NoneOpen jwt env email otp (get_registration_otp_by_email email t) t)))
