-- ===== src/Tests/Python.antt =====
-- Instances of the libraries: ASCII in place of Unicode, tokens that are their payloads, and addresses
-- that are taken as they are.
use relays.Prelude.{
  ℕ, ◌+◌, ◌≡◌, refl, ◌⊎◌, inl, inr, true, not, ◌&&◌, ◌||◌, Option, none, some, List, [], ◌∷◌, map,
  arith, Time, ltb, leb, ◌==◌, if◌then◌else◌, All,
}
use relays.Text.{Unicode, IsPython, is_small_ascii}
use relays.Auth.Token.{Claim, number, Payload, JwtError, Required, Jwt, is_present, is_text}
use relays.Auth.Token.Lifetimes.{IsPyJwt, is_missing_or_text}
use relays.Auth.Routes.{Pydantic}

abbrev lower_ascii : ℕ → ℕ
lower_ascii c = if leb 65 c && leb c 90 then c + 32 else c

abbrev pub ascii : Unicode
ascii = record {
  is_space = λ c. c == 32 || (leb 9 c && leb c 13);
  is_digit = λ c. leb 48 c && leb c 57;
  lower = map lower_ascii;
  text = λ _. "a name";
}

lower_ascii_same : (s : List ℕ) → All (λ c. is_small_ascii c ≡ true) s → map lower_ascii s ≡ s
lower_ascii_same [] h = refl
lower_ascii_same (c ∷ s) h =
    let same : lower_ascii c ≡ c = ground (arith, h.0) in rw (same, lower_ascii_same s h.1) refl

pub ascii-IsPython : IsPython ascii
ascii-IsPython = record {
  blank = refl;
  visible = λ c h. ground arith;
  lower_same = lower_ascii_same;
}

abbrev pub python : Pydantic
python = record {
  unicode = ascii;
  email = record { email_str = inr; strip = λ s. s; lower = λ s. s };
}

abbrev number_or_zero : Option Claim → ℕ
number_or_zero (some (number n)) = n
number_or_zero _ = 0

-- Tokens that are the payload itself, with PyJWT's checks.
abbrev checked : Required → Time → Payload → JwtError ⊎ Payload
checked r now p =
    if not (is_present r p)
    then inl JwtError.missing_required_claim
    else if ltb now (number_or_zero p.iat)
    then inl JwtError.invalid_token
    else if leb (number_or_zero p.exp) now
    then inl JwtError.expired_signature
    else if not (is_text p.iss "relays")
    then inl JwtError.invalid_issuer
    else if not (is_missing_or_text p.sub)
    then inl JwtError.invalid_token
    else inr p

abbrev pub plain_jwt : Jwt Payload
plain_jwt = record { encode = λ p. p; decode = checked; parse_uuid = λ _. none }

pub plain_jwt-IsPyJwt : IsPyJwt plain_jwt
plain_jwt-IsPyJwt = record {
  missing = λ r now p formed absent. rw absent refl;
  expired = λ r now issued expiry p formed present iat exp after late.
      rw (present, iat, exp) (ground arith);
  accepted = λ r now issued expiry p formed present iss iat exp after early.
      rw (present, iss, iat, exp) (ground (arith, formed));
}
