-- ===== src/Auth/Token/Lifetimes.antt =====
-- How long the tokens are accepted, and that the two kinds are kept apart.
use relays.Prelude.{
  ◌+◌, ◌≤◌, ◌<◌, String, ◌≡◌, refl, inl, inr, Bool, true, false, ◌&&◌, Option, none, some, arith,
  str_eq, Uuid, Time, ltb, if◌then◌else◌, Bool-cases,
}
use relays.Core.ErrorCode.{ErrorCode}
use relays.Core.Result.{ok, err, api_exception}
use relays.Auth.Token.{
  Claim, text, uuid_text, number, Payload, JwtError, Required, is_present, Jwt, jwt_issuer,
  access_payload, registration_payload, create_access_token, create_registration_token,
  decode_access_token, decode_registration_token,
}

-- A claim that is not there, or is a text.
abbrev pub is_missing_or_text : Option Claim → Bool
is_missing_or_text none = true
is_missing_or_text (some (text s)) = true
is_missing_or_text (some (uuid_text id)) = true
is_missing_or_text _ = false

-- PyJWT takes the issuer and the subject as texts: it refuses to encode another issuer, and to decode
-- another subject.
abbrev pub is_well_formed : Payload → Bool
is_well_formed p = is_missing_or_text p.iss && is_missing_or_text p.sub

-- What PyJWT documents of a token that it encoded itself with this key and this issuer, of claims whose
-- issuer and subject are texts where they are there: a required claim that is missing is reported; else
-- an expiry that has passed is; else, unless it was issued in the future, the claims come back.
pub record IsPyJwt {T : Type 0} (jwt : Jwt T) : Type 0 where
  pub missing :
      (r : Required) (now : Time) (p : Payload)
      → is_well_formed p ≡ true
      → is_present r p ≡ false
      → jwt.decode r now (jwt.encode p) ≡ inl JwtError.missing_required_claim
  pub expired :
      (r : Required) (now issued expiry : Time) (p : Payload)
      → is_well_formed p ≡ true
      → is_present r p ≡ true
      → p.iat ≡ some (number issued)
      → p.exp ≡ some (number expiry)
      → issued ≤ now
      → expiry ≤ now
      → jwt.decode r now (jwt.encode p) ≡ inl JwtError.expired_signature
  pub accepted :
      (r : Required) (now issued expiry : Time) (p : Payload)
      → is_well_formed p ≡ true
      → is_present r p ≡ true
      → p.iss ≡ some (text jwt_issuer)
      → p.iat ≡ some (number issued)
      → p.exp ≡ some (number expiry)
      → issued ≤ now
      → now < expiry
      → jwt.decode r now (jwt.encode p) ≡ inr p

-- An access token is accepted for an hour, with the claims it was made with and for the user it was
-- made for; from then on it is refused as expired.
pub decode-create_access_token :
    {T : Type 0} (jwt : Jwt T)
    → IsPyJwt jwt
    → (user_id : Uuid) (issued now : Time) → issued ≤ now
    → decode_access_token jwt now (create_access_token jwt issued user_id) ≡ (
        if ltb now (issued + 3600)
        then ok (record {
          iss = some (text "relays");
          sub = user_id;
          type = some (text "access");
          ver = some (number 1);
          iat = some (number issued);
          exp = some (number (issued + 3600));
        })
        else err (api_exception 401 ErrorCode.access_token_expired "Access token expired"))
unfolding decode_access_token create_access_token
decode-create_access_token jwt law user_id issued now after =
    let payload = access_payload user_id issued in
    elim (Bool-cases (ltb now (issued + 3600))) [
      | inl early ↦
          rw
            (
              early,
              law.accepted Required.access_claims now issued (issued + 3600) payload refl refl refl
                  refl refl after (ground arith),
            )
            refl
      | inr late ↦
          rw
            (
              late,
              law.expired Required.access_claims now issued (issued + 3600) payload refl refl refl
                  refl after (ground arith),
            )
            refl
    ]

-- For an email address that is not empty, a registration token is accepted for fifteen minutes, for
-- that address; from then on it is refused as expired.
pub decode-create_registration_token :
    {T : Type 0} (jwt : Jwt T)
    → IsPyJwt jwt
    → (email : String) (issued now : Time) → str_eq email "" ≡ false
    → issued ≤ now
    → decode_registration_token jwt now (create_registration_token jwt issued email) ≡ (
        if ltb now (issued + 900)
        then ok (record {
          iss = some (text "relays");
          email = email;
          type = some (text "registration");
          iat = some (number issued);
          exp = some (number (issued + 900));
        })
        else err (api_exception 401 ErrorCode.invalid_request "Registration token expired"))
unfolding decode_registration_token create_registration_token
decode-create_registration_token jwt law email issued now filled after =
    let payload = registration_payload email issued in
    elim (Bool-cases (ltb now (issued + 900))) [
      | inl early ↦
          rw
            (
              early,
              law.accepted Required.registration_claims now issued (issued + 900) payload refl refl
                  refl refl refl after (ground arith),
            )
            (rw filled refl)
      | inr late ↦
          rw
            (
              late,
              law.expired Required.registration_claims now issued (issued + 900) payload refl refl
                  refl refl after (ground arith),
            )
            refl
    ]

-- A token of one kind is never accepted as the other, whenever it is presented.
pub tokens_kept_apart :
    {T : Type 0} (jwt : Jwt T)
    → IsPyJwt jwt
    → (user_id : Uuid) (email : String) (issued now : Time)
    → (decode_access_token jwt now (create_registration_token jwt issued email)
        ≡ err (api_exception 401 ErrorCode.invalid_access_token "Missing required token claim"))
      × (decode_registration_token jwt now (create_access_token jwt issued user_id)
          ≡ err (api_exception 401 ErrorCode.invalid_request "Missing required token claim"))
unfolding decode_registration_token create_registration_token decode_access_token
    create_access_token
tokens_kept_apart jwt law user_id email issued now = (
  rw (law.missing Required.access_claims now (registration_payload email issued) refl refl) refl,
  rw (law.missing Required.registration_claims now (access_payload user_id issued) refl refl) refl,
)
