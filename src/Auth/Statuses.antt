-- ===== src/Auth/Statuses.antt =====
-- The statuses that the routes declare in their decorators, and what the workflows raise.
pub mod Fields
pub mod Workflows
pub mod Requests
pub mod Declared
use relays.Prelude.{
  ℕ, zero, suc, ◌+◌, ◌-◌, ◌*◌, ◌^◌, ◌≤◌, ◌<◌, min, String, ◌≡◌, refl, sym, ap, subst, ◌∙◌, ◌≢◌, ◌⊎◌,
  inl, inr, Bool, true, false, not, ◌&&◌, ◌||◌, Option, none, some, List, [], ◌∷◌, ◌++◌, map, arith,
  str_eq, Uuid, Digest, Time, ltb, leb, ◌==◌, if◌then◌else◌, Bool-cases, Option-cases, ==_refl,
  is_some, map_option, All, length, take, All-append, All-map, length-append,
}
use relays.Core.ErrorCode.{ErrorCode}
use relays.Core.Http.{Handling, Answer, respond, status_of, handle}
use relays.Core.Result.{Result, ok, err, Exception, Action}

-- The routes with a body.
pub data Route : Type 0 where
  register_request_otp register_verify_otp register login_request_otp login refresh logout : Route

-- The status of success, and the keys of `responses`, of each decorator.
abbrev register_request_otp_statuses : List ℕ
register_request_otp_statuses = 202 ∷ 400 ∷ 409 ∷ 429 ∷ 500 ∷ []

abbrev register_verify_otp_statuses : List ℕ
register_verify_otp_statuses = 200 ∷ 400 ∷ 401 ∷ 404 ∷ 500 ∷ []

abbrev register_statuses : List ℕ
register_statuses = 201 ∷ 400 ∷ 401 ∷ 409 ∷ 500 ∷ []

abbrev login_request_otp_statuses : List ℕ
login_request_otp_statuses = 202 ∷ 400 ∷ 429 ∷ 500 ∷ []

abbrev login_statuses : List ℕ
login_statuses = 200 ∷ 400 ∷ 401 ∷ 404 ∷ 500 ∷ []

abbrev refresh_statuses : List ℕ
refresh_statuses = 200 ∷ 400 ∷ 401 ∷ 500 ∷ []

abbrev logout_statuses : List ℕ
logout_statuses = 200 ∷ 400 ∷ 401 ∷ 500 ∷ []

unfoldable pub declared_statuses : Route → List ℕ
declared_statuses Route.register_request_otp = register_request_otp_statuses
declared_statuses Route.register_verify_otp = register_verify_otp_statuses
declared_statuses Route.register = register_statuses
declared_statuses Route.login_request_otp = login_request_otp_statuses
declared_statuses Route.login = login_statuses
declared_statuses Route.refresh = refresh_statuses
declared_statuses Route.logout = logout_statuses

abbrev pub is_declared : ℕ → List ℕ → Bool
is_declared status_code [] = false
is_declared status_code (c ∷ cs) = status_code == c || is_declared status_code cs

-- The client gets a declared status for the exception, in every mode.
abbrev pub Declared : List ℕ → Exception → Type 0
Declared codes e = (h : Handling) → is_declared (handle h e).status_code codes ≡ true

abbrev pub DeclaredAnswer : {B : Type 0} → List ℕ → Answer B → Type 0
DeclaredAnswer codes a = is_declared (status_of a) codes ≡ true
