-- ===== src/Auth/Token.antt =====
-- app/modules/auth/security/jwt.py: access tokens and registration tokens. PyJWT's `encode` and
-- `decode`, with the configured key and algorithm, are a parameter, and so is Python's `UUID` on
-- the texts that it did not print. Instants are whole seconds here.
pub mod Lifetimes
use relays.Prelude.{
  ℕ, ◌+◌, ◌≤◌, ◌<◌, String, ◌≡◌, refl, ◌⊎◌, inl, inr, Bool, true, false, not, ◌&&◌, Option, none,
  some, arith, str_eq, Uuid, Time, ltb, ◌==◌, if◌then◌else◌, Bool-cases, is_some,
}
use relays.Core.ErrorCode.{ErrorCode}
use relays.Core.Result.{Exception, Result, ok, err, api_exception}

-- A JSON value of a claim: a text, the text that `str` prints for a UUID, a number, or another value.
pub data Claim : Type 0 where
  text : String → Claim
  uuid_text : Uuid → Claim
  number : ℕ → Claim
  other : Claim

-- The claims that the code writes or reads; `none` is a claim that is not there.
pub record Payload : Type 0 where
  pub iss : Option Claim
  pub sub : Option Claim
  pub email : Option Claim
  pub type : Option Claim
  pub ver : Option Claim
  pub iat : Option Claim
  pub exp : Option Claim

-- The exceptions of PyJWT, in the order in which the code catches them.
pub data JwtError : Type 0 where
  expired_signature missing_required_claim invalid_issued_at invalid_issuer invalid_token : JwtError

-- The sets of claims that `require` lists.
pub data Required : Type 0 where
  access_claims registration_claims : Required

abbrev pub is_present : Required → Payload → Bool
is_present Required.access_claims p =
    is_some p.iss
    && is_some p.sub
    && is_some p.type
    && is_some p.ver
    && is_some p.iat
    && is_some p.exp
is_present Required.registration_claims p =
    is_some p.iss && is_some p.email && is_some p.type && is_some p.iat && is_some p.exp

-- PyJWT with the key, the algorithm and the issuer of the configuration.
-- `T` is the type of encoded tokens; `parse_uuid` is `UUID` on a text that `str` does not print.
pub record Jwt (T : Type 0) : Type 0 where
  pub encode : Payload → T
  pub decode : Required → Time → T → JwtError ⊎ Payload
  pub parse_uuid : String → Option Uuid

abbrev pub is_text : Option Claim → String → Bool
is_text (some (text s)) t = str_eq s t
is_text _ t = false

abbrev pub is_number : Option Claim → ℕ → Bool
is_number (some (number m)) n = m == n
is_number _ n = false

abbrev pub jwt_issuer : String
jwt_issuer = "relays"

abbrev pub access_payload : Uuid → Time → Payload
access_payload user_id now = record {
  iss = some (text jwt_issuer);
  sub = some (uuid_text user_id);
  email = none;
  type = some (text "access");
  ver = some (number 1);
  iat = some (number now);
  exp = some (number (now + 3600));
}

abbrev pub registration_payload : String → Time → Payload
registration_payload email now = record {
  iss = some (text jwt_issuer);
  sub = none;
  email = some (text email);
  type = some (text "registration");
  ver = none;
  iat = some (number now);
  exp = some (number (now + 900));
}

abbrev pub bad_access_token : ErrorCode → String → Exception
bad_access_token code message = api_exception 401 code message

abbrev pub access_error : JwtError → Exception
access_error JwtError.expired_signature =
    bad_access_token ErrorCode.access_token_expired "Access token expired"
access_error JwtError.missing_required_claim =
    bad_access_token ErrorCode.invalid_access_token "Missing required token claim"
access_error JwtError.invalid_issued_at =
    bad_access_token ErrorCode.invalid_access_token "Invalid token issued-at timestamp"
access_error JwtError.invalid_issuer =
    bad_access_token ErrorCode.invalid_access_token "Invalid access token issuer"
access_error JwtError.invalid_token =
    bad_access_token ErrorCode.invalid_access_token "Invalid access token"

abbrev pub bad_registration_token : String → Exception
bad_registration_token message = api_exception 401 ErrorCode.invalid_request message

abbrev pub registration_error : JwtError → Exception
registration_error JwtError.expired_signature = bad_registration_token "Registration token expired"
registration_error JwtError.missing_required_claim =
    bad_registration_token "Missing required token claim"
registration_error JwtError.invalid_issued_at =
    bad_registration_token "Invalid token issued-at timestamp"
registration_error JwtError.invalid_issuer =
    bad_registration_token "Invalid registration token issuer"
registration_error JwtError.invalid_token = bad_registration_token "Invalid registration token"

-- The claims of an accepted token; `decode` has checked that the required ones are there.
pub record AccessTokenPayload : Type 0 where
  pub iss : Option Claim
  pub sub : Uuid
  pub type : Option Claim
  pub ver : Option Claim
  pub iat : Option Claim
  pub exp : Option Claim

pub record RegistrationTokenPayload : Type 0 where
  pub iss : Option Claim
  pub email : String
  pub type : Option Claim
  pub iat : Option Claim
  pub exp : Option Claim

-- `UUID(payload["sub"])`
abbrev subject : (String → Option Uuid) → Option Claim → Option Uuid
subject parse_uuid (some (text s)) = parse_uuid s
subject parse_uuid (some (uuid_text id)) = some id
subject parse_uuid _ = none

abbrev access_token_of : Payload → Option Uuid → Result AccessTokenPayload
access_token_of p none =
    err (bad_access_token ErrorCode.invalid_access_token "Invalid token subject")
access_token_of p (some uid) =
    ok (record { iss = p.iss; sub = uid; type = p.type; ver = p.ver; iat = p.iat; exp = p.exp })

abbrev read_access : (String → Option Uuid) → JwtError ⊎ Payload → Result AccessTokenPayload
read_access parse_uuid (inl e) = err (access_error e)
read_access parse_uuid (inr p) =
    if not (is_text p.type "access")
    then err (bad_access_token ErrorCode.invalid_access_token "Invalid access token type")
    else if not (is_number p.ver 1)
    then err (bad_access_token ErrorCode.invalid_access_token "Unsupported access token version")
    else access_token_of p (subject parse_uuid p.sub)

abbrev bad_email : Exception
bad_email = bad_registration_token "Invalid registration token email"

abbrev pub registration_token_of : Payload → Option Claim → Result RegistrationTokenPayload
registration_token_of p (some (text email)) =
    if str_eq email ""
    then err bad_email
    else ok (record { iss = p.iss; email = email; type = p.type; iat = p.iat; exp = p.exp })
registration_token_of p _ = err bad_email

abbrev pub read_registration : JwtError ⊎ Payload → Result RegistrationTokenPayload
read_registration (inl e) = err (registration_error e)
read_registration (inr p) =
    if not (is_text p.type "registration")
    then err (bad_registration_token "Invalid registration token type")
    else registration_token_of p p.email

module _ {T : Type 0} (jwt : Jwt T) where
  unfoldable pub create_access_token : (now : Time) → Uuid → T
  create_access_token now user_id = jwt.encode (access_payload user_id now)

  unfoldable pub create_registration_token : (now : Time) → String → T
  create_registration_token now email = jwt.encode (registration_payload email now)

  unfoldable pub decode_access_token : (now : Time) → T → Result AccessTokenPayload
  decode_access_token now token =
      read_access jwt.parse_uuid (jwt.decode Required.access_claims now token)

  unfoldable pub decode_registration_token : (now : Time) → T → Result RegistrationTokenPayload
  decode_registration_token now token =
      read_registration (jwt.decode Required.registration_claims now token)
