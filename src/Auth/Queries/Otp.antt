-- ===== src/Auth/Queries/Otp.antt =====
-- app/modules/auth/db/registration_otp_queries.py and login_otp_queries.py.
use relays.Prelude.{
  String, Bool, true, not, ◌&&◌, ◌||◌, Option, none, some, List, str_eq, Uuid, Digest, Time, ltb,
  leb, ◌==◌, is_some,
}
use relays.Table.{find_first, update_returning, delete_where, insert_returning}
use relays.Core.Result.{Action}
use relays.Auth.Model.{RegistrationOtp, LoginOtp}

abbrev pub null_or_from : Time → Option Time → Bool
null_or_from start none = true
null_or_from start (some t) = leb start t

-- registration_otp

abbrev pub registration_otp_check : RegistrationOtp → Bool
registration_otp_check o = null_or_from o.created_at o.consumed_at && ltb o.created_at o.expires_at

-- `UNIQUE (email)` and the primary key
abbrev pub same_registration_otp : RegistrationOtp → RegistrationOtp → Bool
same_registration_otp o p = str_eq p.email o.email || p.id == o.id

abbrev pub otp_of_email : String → RegistrationOtp → Bool
otp_of_email email o = str_eq o.email email

abbrev pub open_otp_of_email : String → RegistrationOtp → Bool
open_otp_of_email email o = str_eq o.email email && not (is_some o.consumed_at)

unfoldable pub create_registration_otp :
    (id : Uuid) (now : Time) (email : String)
    → Digest
    → Time
    → Action (List RegistrationOtp) RegistrationOtp
create_registration_otp id now email otp_hash expires_at =
    insert_returning registration_otp_check same_registration_otp (record {
      id = id;
      email = email;
      otp_hash = otp_hash;
      expires_at = expires_at;
      consumed_at = none;
      created_at = now;
    })

unfoldable pub get_registration_otp_by_email :
    String → List RegistrationOtp → Option RegistrationOtp
get_registration_otp_by_email email t = find_first (open_otp_of_email email) t

unfoldable pub consume_registration_otp :
    (now : Time) → String → Action (List RegistrationOtp) (Option RegistrationOtp)
consume_registration_otp now email =
    update_returning registration_otp_check (open_otp_of_email email)
      (λ o. record o { consumed_at = some now })

unfoldable pub delete_registration_otp : String → List RegistrationOtp → List RegistrationOtp
delete_registration_otp email = delete_where (otp_of_email email)

-- login_otp

abbrev pub login_otp_check : LoginOtp → Bool
login_otp_check o = null_or_from o.created_at o.consumed_at && ltb o.created_at o.expires_at

-- `UNIQUE (user_id)` and the primary key
abbrev pub same_login_otp : LoginOtp → LoginOtp → Bool
same_login_otp o p = p.user_id == o.user_id || p.id == o.id

abbrev pub otp_of_user : Uuid → LoginOtp → Bool
otp_of_user user_id o = o.user_id == user_id

abbrev pub open_otp_of_user : Uuid → LoginOtp → Bool
open_otp_of_user user_id o = o.user_id == user_id && not (is_some o.consumed_at)

unfoldable pub create_login_otp :
    (id : Uuid) (now : Time) (user_id : Uuid) → Digest → Time → Action (List LoginOtp) LoginOtp
create_login_otp id now user_id otp_hash expires_at =
    insert_returning login_otp_check same_login_otp (record {
      id = id;
      user_id = user_id;
      otp_hash = otp_hash;
      expires_at = expires_at;
      consumed_at = none;
      created_at = now;
    })

unfoldable pub get_login_otp_by_user_id : Uuid → List LoginOtp → Option LoginOtp
get_login_otp_by_user_id user_id t = find_first (open_otp_of_user user_id) t

unfoldable pub consume_login_otp : (now : Time) → Uuid → Action (List LoginOtp) (Option LoginOtp)
consume_login_otp now user_id =
    update_returning login_otp_check (open_otp_of_user user_id)
      (λ o. record o { consumed_at = some now })

unfoldable pub delete_login_otp : Uuid → List LoginOtp → List LoginOtp
delete_login_otp user_id = delete_where (otp_of_user user_id)
