-- ===== src/Auth/Registration/Roundtrip.antt =====
-- From the request of a registration password to its verification.
use relays.Prelude.{
  ◌+◌, ◌*◌, ◌<◌, String, ◌≡◌, refl, ap, subst, ◌∙◌, inl, inr, Bool, true, false, ◌&&◌, ◌||◌, none,
  List, [], ◌∷◌, ◌++◌, arith, str_eq, Uuid, ◌==◌, Option-cases, is_some,
}
use relays.Core.ErrorCode.{ErrorCode}
use relays.Core.Result.{
  Result, ok, err, Action, api_exception, ◌>>◌, raise_if, conflict_result, unique_violation,
}
use relays.Core.Triple.{bind_ok, bind_err, transaction_ok, transaction_err}
use relays.Table.{find_first, exists_row, delete_where}
use relays.Table.Laws.{insert_returning_ok, insert_returning_taken}
use relays.Auth.Model.{User, RegistrationOtp}
use relays.Auth.Queries.{
  create_registration_otp, get_registration_otp_by_email, delete_registration_otp,
  get_user_by_email, registration_otp_check, same_registration_otp, otp_of_email, open_otp_of_email,
}
use relays.Auth.Registration.{
  Env, account_exists, request_registration_otp, replace_otp, issue_otp, ignore_otp, no_code_now,
}

abbrev pub consumed_otp_of_email : String → RegistrationOtp → Bool
consumed_otp_of_email email o = str_eq o.email email && is_some o.consumed_at

abbrev pub requested_otp : Env → String → RegistrationOtp
requested_otp env email = record {
  id = env.otp_id;
  email = email;
  otp_hash = env.sha512 env.otp;
  expires_at = env.clock + 5 * 60;
  consumed_at = none;
  created_at = env.now;
}

module _ (email : String) where
  none_of_email :
      (t : List RegistrationOtp)
      → exists_row (consumed_otp_of_email email) t ≡ false
      → find_first (open_otp_of_email email) t ≡ none
      → exists_row (otp_of_email email) t ≡ false
  unfolding exists_row find_first
  none_of_email [] c f = refl
  none_of_email (x ∷ t) c f = ground (arith, none_of_email t)

  delete_registration_otp_same :
      (t : List RegistrationOtp)
      → exists_row (otp_of_email email) t ≡ false
      → delete_registration_otp email t ≡ t
  unfolding exists_row delete_registration_otp delete_where
  delete_registration_otp_same [] h = refl
  delete_registration_otp_same (x ∷ t) h = ground (arith, delete_registration_otp_same t)

  not-exists_row-delete_registration_otp :
      (id : Uuid) (t : List RegistrationOtp)
      → exists_row (λ o. o.id == id) t ≡ false
      → exists_row (λ o. str_eq o.email email || o.id == id) (delete_registration_otp email t)
        ≡ false
  unfolding exists_row delete_registration_otp delete_where
  not-exists_row-delete_registration_otp id [] h = refl
  not-exists_row-delete_registration_otp id (x ∷ t) h =
      ground (arith, not-exists_row-delete_registration_otp id t)

  email_taken :
      (id : Uuid) (t : List RegistrationOtp)
      → exists_row (consumed_otp_of_email email) t ≡ true
      → exists_row (λ o. str_eq o.email email || o.id == id) t ≡ true
  unfolding exists_row
  email_taken id [] h = cc
  email_taken id (x ∷ t) h = ground (arith, email_taken id t)

module _ (env : Env) (users : List User) (email : String)
    (no_user : get_user_by_email email users ≡ none) where
  abbrev answered :
      Result (Unit {0}) → (t u : List RegistrationOtp) → Result (Unit {0}) × List RegistrationOtp
  answered (ok _) t u = (ok tt, u)
  answered (err e) t u = (conflict_result no_code_now (err e), t)

  body : Action (List RegistrationOtp) (Unit {0}) → Action (List RegistrationOtp) (Unit {0})
  body m = raise_if (is_some (get_user_by_email email users)) account_exists >> m

  body_lem :
      (m : Action (List RegistrationOtp) (Unit {0})) (t : List RegistrationOtp) → body m t ≡ m t
  unfolding body
  body_lem m t = ap (λ o. (raise_if (is_some o) account_exists >> m) t) no_user

  request_result :
      (r : Result (Unit {0})) (t u : List RegistrationOtp)
      → replace_otp env email t ≡ (r, u)
      → request_registration_otp env true users email t ≡ answered r t u
  unfolding request_registration_otp body
  request_result (ok _) t u e =
      ap (λ (x : Result (Unit {0}) × List RegistrationOtp). (conflict_result no_code_now x.0, x.1))
        (transaction_ok (body (replace_otp env email)) (body_lem (replace_otp env email) t ∙ e))
  request_result (err x) t u e =
      ap (λ (x : Result (Unit {0}) × List RegistrationOtp). (conflict_result no_code_now x.0, x.1))
        (transaction_err (body (replace_otp env email)) (body_lem (replace_otp env email) t ∙ e))

  module _ (t : List RegistrationOtp) (lives : env.now < env.clock + 5 * 60) where
    issue_otp_ok :
        (u : List RegistrationOtp)
        → exists_row (λ o. str_eq o.email email || o.id == env.otp_id) u ≡ false
        → issue_otp env email u ≡ (ok tt, u ++ requested_otp env email ∷ [])
    unfolding issue_otp create_registration_otp
    issue_otp_ok u free =
        let create =
          create_registration_otp env.otp_id env.now email (env.sha512 env.otp)
            (env.clock + 5 * 60) in
        bind_ok {B = Unit {0}} create ignore_otp (
          insert_returning_ok registration_otp_check same_registration_otp (requested_otp env email)
            u (ground arith) free)

    issue_otp_taken :
        (u : List RegistrationOtp)
        → exists_row (λ o. str_eq o.email email || o.id == env.otp_id) u ≡ true
        → issue_otp env email u ≡ (err unique_violation, u)
    unfolding issue_otp create_registration_otp
    issue_otp_taken u taken =
        let create =
          create_registration_otp env.otp_id env.now email (env.sha512 env.otp)
            (env.clock + 5 * 60) in
        bind_err {B = Unit {0}} create ignore_otp (
          insert_returning_taken registration_otp_check same_registration_otp
            (requested_otp env email) u (ground arith) taken)

    -- Where no password of the address was ever consumed, an allowed request for an address without an
    -- account puts a fresh password, alone, in place of what the table had for it.
    pub request_registration_otp_lem :
        exists_row (consumed_otp_of_email email) t ≡ false
        → exists_row (λ o. o.id == env.otp_id) t ≡ false
        → request_registration_otp env true users email t
          ≡ (ok tt, delete_registration_otp email t ++ requested_otp env email ∷ [])
    unfolding replace_otp get_registration_otp_by_email
    request_registration_otp_lem unconsumed id_free =
        let done =
          issue_otp_ok (delete_registration_otp email t)
            (not-exists_row-delete_registration_otp email env.otp_id t id_free) in
        let replaced : replace_otp env email t
            ≡ (ok tt, delete_registration_otp email t ++ requested_otp env email ∷ []) =
          elim (Option-cases (find_first (open_otp_of_email email) t)) [
            | inr (o, found) ↦ rw found done
            | inl missing ↦
                let same =
                  delete_registration_otp_same email t (none_of_email email t unconsumed missing) in
                rw (missing, same)
                  (subst (λ u. issue_otp env email u ≡ (ok tt, u ++ requested_otp env email ∷ []))
                    same done)
          ] in
        request_result (ok tt) t (delete_registration_otp email t ++ requested_otp env email ∷ [])
          replaced

    -- Where the address has a consumed password and no open one, as after a verification, an allowed
    -- request is refused with a conflict and writes nothing: the consumed row is never deleted, and
    -- the address is unique in the table.
    pub consumed_otp_blocks :
        exists_row (consumed_otp_of_email email) t ≡ true
        → get_registration_otp_by_email email t ≡ none
        → request_registration_otp env true users email t ≡ (
          err (
              api_exception 409 ErrorCode.conflict
                "Unable to generate a verification code at this time. Please try again."),
          t,
        )
    unfolding replace_otp get_registration_otp_by_email
    consumed_otp_blocks consumed missing =
        let refused : replace_otp env email t ≡ (err unique_violation, t) =
          rw missing (issue_otp_taken t (email_taken email env.otp_id t consumed)) in
        request_result (err unique_violation) t t refused
