-- ===== src/Core/Raises.antt =====
-- What an action may raise, with one rule for each way in which actions are put together.
use relays.Prelude.{String, inl, inr, Bool, true, false}
use relays.Core.ErrorCode.{ErrorCode}
use relays.Core.Result.{
  Exception, Result, ok, err, Action, api_exception, http_exception, request_validation_error,
  runtime_error, value_error, permanent_failure, timeout_exception, connect_error, unique_violation,
  check_violation, validation_error, conflict_error, conflict_result, raise_if, on_unique_violation,
  transaction, ◌>>=◌,
}
use relays.Table.{update_returning, insert_returning}
use relays.Table.Laws.{update_returning_cases, insert_returning_raises}

module _ (P : Exception → Type 0) where
  -- The exception has the property, if there is one.
  abbrev pub OnErr : {A : Type 0} → Result A → Type 0
  OnErr (ok a) = Unit
  OnErr (err e) = P e

  abbrev pub Raises : {S A : Type 0} → Action S A → Type 0
  Raises {S} m = (s : S) → OnErr (m s).0

  module _ {S A B : Type 0} where
    bind-Raises :
        (r : Result A) (s : S) (f : A → Action S B)
        → OnErr r
        → ((a : A) → Raises (f a))
        → OnErr (elim r as (λ _. Result B × S) [ ok a ↦ f a s | err e ↦ (err e, s) ]).0
    bind-Raises (ok a) s f h k = k a s
    bind-Raises (err e) s f h k = h

    pub Raises-bind :
        (m : Action S A) (f : A → Action S B)
        → Raises m
        → ((a : A) → Raises (f a))
        → Raises (m >>= f)
    Raises-bind m f h k s = bind-Raises (m s).0 (m s).1 f (h s) k

  conflict_error_raises :
      (message : String) (e : Exception)
      → P (api_exception 409 ErrorCode.conflict message)
      → P e
      → P (conflict_error message e)
  conflict_error_raises message (api_exception a b c) k h = h
  conflict_error_raises message (http_exception a b) k h = h
  conflict_error_raises message (request_validation_error a b) k h = h
  conflict_error_raises message (runtime_error a) k h = h
  conflict_error_raises message (value_error a) k h = h
  conflict_error_raises message (permanent_failure a) k h = h
  conflict_error_raises message (timeout_exception a) k h = h
  conflict_error_raises message (connect_error a) k h = h
  conflict_error_raises message unique_violation k h = k
  conflict_error_raises message check_violation k h = h
  conflict_error_raises message validation_error k h = h

  conflict_raises :
      {A : Type 0} (message : String) (r : Result A)
      → P (api_exception 409 ErrorCode.conflict message)
      → OnErr r
      → OnErr (conflict_result message r)
  conflict_raises message (ok a) k h = tt
  conflict_raises message (err e) k h = conflict_error_raises message e k h

  module _ {S A : Type 0} where
    transaction_raises :
        (r : Result A) (s s' : S)
        → OnErr r
        → OnErr (elim r as (λ _. Result A × S) [ ok a ↦ (ok a, s') | err e ↦ (err e, s) ]).0
    transaction_raises (ok a) s s' h = tt
    transaction_raises (err e) s s' h = h

    pub Raises-transaction : (m : Action S A) → Raises m → Raises (transaction m)
    Raises-transaction m h s = transaction_raises (m s).0 s (m s).1 (h s)

    pub Raises-on_unique_violation :
        (message : String) (m : Action S A)
        → P (api_exception 409 ErrorCode.conflict message)
        → Raises m
        → Raises (on_unique_violation message m)
    Raises-on_unique_violation message m k h s = conflict_raises message (m s).0 k (h s)

  pub Raises-raise_if :
      {S : Type 0} (c : Bool) (e : Exception) → P e → Raises {S = S} (raise_if c e)
  Raises-raise_if true e h s = h
  Raises-raise_if false e h s = tt

  pub Raises-update_returning :
      {R : Type 0} (check p : R → Bool) (f : R → R)
      → P check_violation
      → Raises (update_returning check p f)
  Raises-update_returning check p f h t = elim (update_returning_cases check p f t) [
    | inl broken ↦ rw broken h
    | inr done ↦ rw done tt
  ]

  pub Raises-insert_returning :
      {R : Type 0} (check : R → Bool) (clashes : R → R → Bool) (row : R)
      → P check_violation
      → P unique_violation
      → Raises (insert_returning check clashes row)
  Raises-insert_returning check clashes row h k t =
      elim (insert_returning_raises check clashes row t) [
        | inl broken ↦ rw broken h
        | inr more ↦ elim more [ inl taken ↦ rw taken k | inr done ↦ rw done tt ]
      ]
