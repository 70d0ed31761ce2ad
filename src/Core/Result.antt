-- ===== src/Core/Result.antt =====
-- What a call raises (app/core/errors.py and the exceptions of asyncpg, pydantic and httpx that the
-- code meets), and code that changes a state and may raise. What was written before a raise stays
-- written, so the state comes back beside the exception; `transaction` takes it back.
use relays.Prelude.{ℕ, String, Bool, Option, none, some, if◌then◌else◌}
use relays.Core.ErrorCode.{ErrorCode}

-- `api_exception` is `APIException`, the others are Python's and the libraries' own.
pub data Exception : Type 0 where
  api_exception : (status_code : ℕ) → ErrorCode → (message : String) → Exception
  http_exception : (status_code : ℕ) → (detail : Option String) → Exception
  request_validation_error : (location message : String) → Exception
  runtime_error value_error permanent_failure timeout_exception connect_error : String → Exception
  unique_violation check_violation validation_error : Exception

pub data Result {ℓ} (A : Type ℓ) : Type ℓ where
  ok : A → Result A
  err : Exception → Result A

abbrev pub Action {ℓ} : Type ℓ → Type ℓ → Type ℓ
Action S A = S → Result A × S

-- `except UniqueViolationError` around a block, which raises an APIException in its place.
abbrev pub conflict_error : String → Exception → Exception
conflict_error message unique_violation = api_exception 409 ErrorCode.conflict message
conflict_error message e = e

abbrev pub conflict_result {ℓ} : {A : Type ℓ} → String → Result A → Result A
conflict_result message (ok a) = ok a
conflict_result message (err e) = err (conflict_error message e)

module _ {ℓ} {S A : Type ℓ} where
  abbrev pub pure : A → Action S A
  pure a s = (ok a, s)

  abbrev pub raise : Exception → Action S A
  raise e s = (err e, s)

  -- `async with conn.transaction()`: a raise inside takes every write back, and goes on.
  abbrev pub transaction : Action S A → Action S A
  transaction m s = let (r, s') = m s in elim r [ ok a ↦ (ok a, s') | err e ↦ (err e, s) ]

  abbrev pub on_unique_violation : String → Action S A → Action S A
  on_unique_violation message m s = let (r, s') = m s in (conflict_result message r, s')

  -- A result that must be there.
  abbrev pub or_raise : Option A → Exception → Action S A
  or_raise none e = raise e
  or_raise (some a) e = pure a

module _ {ℓ} {S A B : Type ℓ} where
  infixl 5 ◌>>=◌
  abbrev pub ◌>>=◌ : Action S A → (A → Action S B) → Action S B
  ◌>>=◌ m f s = let (r, s') = m s in elim r [ ok a ↦ f a s' | err e ↦ (err e, s') ]

module _ {S A B : Type 0} where
  infixl 5 ◌>>◌
  abbrev pub ◌>>◌ : Action S A → Action S B → Action S B
  ◌>>◌ m k = m >>= λ _. k

module _ {S : Type 0} where
  abbrev pub raise_if : Bool → Exception → Action S (Unit {0})
  raise_if c e s = (if c then err e else ok tt, s)
