-- ===== src/Auth/Registration/Verified.antt =====
-- The verification of a registration password that was requested before.
use text.Mathlib.TextPositions.{eq_refl}
use relays.Prelude.{
  ℕ, ◌+◌, ◌*◌, ◌≤◌, ◌<◌, String, ◌≡◌, refl, ap, ◌∙◌, inl, inr, true, false, ◌&&◌, none, some, List,
  [], ◌∷◌, ◌++◌, arith, str_eq, ltb, leb, ◌==◌, if◌then◌else◌, Bool-cases,
}
use relays.Core.ErrorCode.{ErrorCode}
use relays.Core.Result.{Result, ok, err, api_exception}
use relays.Core.Triple.{bind_ok, transaction_ok, transaction_err}
use relays.Table.{exists_row, delete_where}
use relays.Table.Laws.{find_first-append_new, update_returning-one}
use relays.Auth.Model.{User, RegistrationOtp}
use relays.Auth.Queries.{
  get_registration_otp_by_email, consume_registration_otp, delete_registration_otp,
  get_user_by_email, registration_otp_check, open_otp_of_email,
}
use relays.Auth.Token.{Jwt, create_registration_token}
use relays.Auth.Registration.{
  Env, request_registration_otp, invalid_otp, verify_registration_otp, verify_in_transaction,
  verify_found, registration_token,
}
use relays.Auth.Registration.Roundtrip.{
  consumed_otp_of_email, requested_otp, request_registration_otp_lem,
}

requested_otp_open :
    (env : Env) (email : String) → open_otp_of_email email (requested_otp env email) ≡ true
requested_otp_open env email = let same : str_eq email email ≡ true = eq_refl email in rw same refl

none_open_left :
    (email : String) (t : List RegistrationOtp)
    → exists_row (open_otp_of_email email) (delete_registration_otp email t) ≡ false
unfolding exists_row delete_registration_otp delete_where
none_open_left email [] = refl
none_open_left email (x ∷ t) = ground (arith, none_open_left email t)

module _ {T : Type 0} (jwt : Jwt T) (env later : Env) (email : String) (otp : List ℕ)
    (u : List RegistrationOtp) (alone : exists_row (open_otp_of_email email) u ≡ false) where
  abbrev row : RegistrationOtp
  row = requested_otp env email

  abbrev consumed : RegistrationOtp
  consumed = record row { consumed_at = some later.now }

  row_open : open_otp_of_email email row ≡ true
  row_open = requested_otp_open env email

  found_row :
      verify_in_transaction jwt later email otp (u ++ row ∷ [])
      ≡ verify_found jwt later email otp (some row) (u ++ row ∷ [])
  unfolding verify_in_transaction get_registration_otp_by_email
  found_row =
      ap (λ o. verify_found jwt later email otp o (u ++ row ∷ []))
        (find_first-append_new (open_otp_of_email email) u row alone row_open)

  verify_refused :
      (ltb later.clock (env.clock + 5 * 60) && (later.sha512 otp == env.sha512 env.otp)) ≡ false
      → (t : List RegistrationOtp) × (verify_found jwt later email otp (some row) (u ++ row ∷ [])
          ≡ (err invalid_otp, t))
  unfolding verify_found
  verify_refused wrong = elim (Bool-cases (leb (env.clock + 5 * 60) later.clock)) [
    | inl late ↦ rw late (_, refl)
    | inr early ↦
        let differs : (later.sha512 otp == env.sha512 env.otp) ≡ false = ground arith in
        rw (early, differs) (_, refl)
  ]

  verify_accepted :
      (ltb later.clock (env.clock + 5 * 60) && (later.sha512 otp == env.sha512 env.otp)) ≡ true
      → env.now < env.clock + 5 * 60
      → env.now ≤ later.now
      → verify_found jwt later email otp (some row) (u ++ row ∷ [])
        ≡ (ok (create_registration_token jwt later.clock email), u ++ consumed ∷ [])
  unfolding verify_found consume_registration_otp exists_row
  verify_accepted right lives after =
      let early : leb (env.clock + 5 * 60) later.clock ≡ false = ground arith in
      let same : (later.sha512 otp == env.sha512 env.otp) ≡ true = ground arith in
      let stamp = λ (o : RegistrationOtp). record o { consumed_at = some later.now } in
      rw (early, same)
        (bind_ok {B = T} (consume_registration_otp later.now email)
          (registration_token jwt later email)
          (update_returning-one registration_otp_check (open_otp_of_email email) stamp row u []
            alone refl row_open (ground arith)))

  verify_answer :
      env.now < env.clock + 5 * 60
      → env.now ≤ later.now
      → (verify_registration_otp jwt later email otp (u ++ row ∷ [])).0 ≡ (
          if ltb later.clock (env.clock + 5 * 60) && (later.sha512 otp == env.sha512 env.otp)
          then ok (create_registration_token jwt later.clock email)
          else err invalid_otp)
  unfolding verify_registration_otp
  verify_answer lives after =
      let verify = verify_in_transaction jwt later email otp in
      elim (Bool-cases
        (ltb later.clock (env.clock + 5 * 60) && (later.sha512 otp == env.sha512 env.otp))) [
          | inl right ↦ rw right (
              ap (λ (x : Result T × List RegistrationOtp). x.0)
                (transaction_ok verify (found_row ∙ verify_accepted right lives after)))
          | inr wrong ↦
              let (_, refused) = verify_refused wrong in
              rw wrong (
                ap (λ (x : Result T × List RegistrationOtp). x.0)
                  (transaction_err verify (found_row ∙ refused)))
        ]

-- For an address without an account and without a consumed password, after an allowed request a
-- verification gives a registration token exactly if it comes before five minutes have passed and its
-- password has the digest of the one that was sent; otherwise the password is refused as invalid. The
-- row's identifier is unused, and the clocks of the database and of the program are not so far apart
-- that the password is born expired.
pub verify_requested_otp :
    {T : Type 0} (jwt : Jwt T) (env later : Env) (users : List User) (email : String) (otp : List ℕ)
    (t : List RegistrationOtp)
    → get_user_by_email email users ≡ none
    → exists_row (consumed_otp_of_email email) t ≡ false
    → exists_row (λ o. o.id == env.otp_id) t ≡ false
    → env.now < env.clock + 5 * 60
    → env.now ≤ later.now
    → (verify_registration_otp jwt later email otp
        (request_registration_otp env true users email t).1).0
      ≡ (if ltb later.clock (env.clock + 5 * 60) && (later.sha512 otp == env.sha512 env.otp)
          then ok (create_registration_token jwt later.clock email)
          else err (api_exception 401 ErrorCode.invalid_otp "Invalid OTP"))
verify_requested_otp jwt env later users email otp t no_user unconsumed id_free lives after =
    rw (request_registration_otp_lem env users email no_user t lives unconsumed id_free) (
      verify_answer jwt env later email otp (delete_registration_otp email t)
        (none_open_left email t) lives after)
