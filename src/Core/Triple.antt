-- ===== src/Core/Triple.antt =====
-- What holds where an action returns, with one rule for a sequence and one for a transaction.
use relays.Prelude.{◌≡◌, refl, ap, subst}
use relays.Core.Result.{Exception, Result, ok, err, Action, transaction, ◌>>=◌}

module _ {S A : Type 0} where
  -- `Q` holds of the value and the state, unless the action raised.
  abbrev pub OnOk : (A → S → Type 0) → Result A × S → Type 0
  OnOk Q (ok a, s) = Q a s
  OnOk Q (err e, s) = Unit

  pub on_anything : (x : Result A × S) → OnOk (λ _ _. Unit {0}) x
  on_anything (ok a, s) = tt
  on_anything (err e, s) = tt

  -- A transaction keeps what its body keeps where it returns: a raise takes its writes back.
  transaction_result :
      (P : S → Type 0) (r : Result A) (s s' : S)
      → P s
      → OnOk (λ _ u. P u) (r, s')
      → P (elim r as (λ _. Result A × S) [ ok a ↦ (ok a, s') | err e ↦ (err e, s) ]).1
  transaction_result P (ok a) s s' h k = k
  transaction_result P (err e) s s' h k = h

  pub transaction-keeps :
      (P : S → Type 0) (m : Action S A) (s : S)
      → P s
      → OnOk (λ _ u. P u) (m s)
      → P (transaction m s).1
  transaction-keeps P m s h k = transaction_result P (m s).0 s (m s).1 h k

  -- A raise inside a transaction leaves the state as it was.
  transaction_err_result :
      (r : Result A) (s s' : S) {e : Exception}
      → (elim r as (λ _. Result A × S) [ ok a ↦ (ok a, s') | err x ↦ (err x, s) ]).0 ≡ err e
      → (elim r as (λ _. Result A × S) [ ok a ↦ (ok a, s') | err x ↦ (err x, s) ]).1 ≡ s
  transaction_err_result (ok a) s s' h = cc
  transaction_err_result (err x) s s' h = refl

  pub transaction_atomic :
      (m : Action S A) (s : S) {e : Exception}
      → (transaction m s).0 ≡ err e
      → (transaction m s).1 ≡ s
  transaction_atomic m s h = transaction_err_result (m s).0 s (m s).1 h

  on_transaction_result :
      (Q : A → S → Type 0) (r : Result A) (s s' : S)
      → OnOk Q (r, s')
      → OnOk Q (elim r as (λ _. Result A × S) [ ok a ↦ (ok a, s') | err e ↦ (err e, s) ])
  on_transaction_result Q (ok a) s s' h = h
  on_transaction_result Q (err e) s s' h = tt

  pub OnOk-transaction :
      (Q : A → S → Type 0) (m : Action S A) (s : S) → OnOk Q (m s) → OnOk Q (transaction m s)
  OnOk-transaction Q m s h = on_transaction_result Q (m s).0 s (m s).1 h

  on_result : (Q : A → S → Type 0) (r : Result A) (s : S) {a : A} → r ≡ ok a → OnOk Q (r, s) → Q a s
  on_result Q (ok b) s e h = subst (λ c. Q c s) (cc) h
  on_result Q (err x) s e h = cc

  -- What holds where the action returns, given that it returned.
  pub OnOk-result :
      (Q : A → S → Type 0) (x : Result A × S) {a : A} → x.0 ≡ ok a → OnOk Q x → Q a x.1
  OnOk-result Q x e h = on_result Q x.0 x.1 e h

  weakened_result :
      (Q R : A → S → Type 0) (r : Result A) (s : S)
      → ((a : A) (u : S) → Q a u → R a u)
      → OnOk Q (r, s)
      → OnOk R (r, s)
  weakened_result Q R (ok a) s f h = f a s h
  weakened_result Q R (err e) s f h = tt

  pub OnOk-weaken :
      (Q R : A → S → Type 0) (x : Result A × S)
      → ((a : A) (u : S) → Q a u → R a u)
      → OnOk Q x
      → OnOk R x
  OnOk-weaken Q R x f h = weakened_result Q R x.0 x.1 f h

module _ {S A B : Type 0} where
  bind_result :
      (P : A → S → Type 0) (Q : B → S → Type 0) (r : Result A) (s : S) (f : A → Action S B)
      → OnOk P (r, s)
      → ((a : A) (u : S) → P a u → OnOk Q (f a u))
      → OnOk Q (elim r as (λ _. Result B × S) [ ok a ↦ f a s | err e ↦ (err e, s) ])
  bind_result P Q (ok a) s f h k = k a s h
  bind_result P Q (err e) s f h k = tt

  pub OnOk-bind :
      (P : A → S → Type 0) (Q : B → S → Type 0) (m : Action S A) (f : A → Action S B) (s : S)
      → OnOk P (m s)
      → ((a : A) (u : S) → P a u → OnOk Q (f a u))
      → OnOk Q ((m >>= f) s)
  OnOk-bind P Q m f s h k = bind_result P Q (m s).0 (m s).1 f h k

module _ {S A B : Type 0} (m : Action S A) (f : A → Action S B) {s u : S} where
  -- A sequence goes on from what its first part gives.
  pub bind_ok : {a : A} → m s ≡ (ok a, u) → (m >>= f) s ≡ f a u
  bind_ok e =
      ap
        (λ (x : Result A × S). elim x.0 as (λ _. Result B × S) [
          | ok a ↦ f a x.1
          | err e ↦ (err e, x.1)
        ])
        e

  -- A sequence ends where its first part raises.
  pub bind_err : {e : Exception} → m s ≡ (err e, u) → (m >>= f) s ≡ (err e, u)
  bind_err e =
      ap
        (λ (x : Result A × S). elim x.0 as (λ _. Result B × S) [
          | ok a ↦ f a x.1
          | err e ↦ (err e, x.1)
        ])
        e

module _ {S A : Type 0} (m : Action S A) {s u : S} where
  pub transaction_ok : {a : A} → m s ≡ (ok a, u) → transaction m s ≡ (ok a, u)
  transaction_ok e =
      ap
        (λ (x : Result A × S). elim x.0 as (λ _. Result A × S) [
          | ok a ↦ (ok a, x.1)
          | err e ↦ (err e, s)
        ])
        e

  pub transaction_err : {e : Exception} → m s ≡ (err e, u) → transaction m s ≡ (err e, s)
  transaction_err e =
      ap
        (λ (x : Result A × S). elim x.0 as (λ _. Result A × S) [
          | ok a ↦ (ok a, x.1)
          | err e ↦ (err e, s)
        ])
        e

-- `m` keeps `P`, whether it returns or raises.
abbrev pub Keeps : {S A : Type 0} → (S → Type 0) → Action S A → Type 0
Keeps {S} P m = (s : S) → P s → P (m s).1

module _ {S A B : Type 0} (P : S → Type 0) where
  Keeps-bind_result :
      (r : Result A) (s : S) (f : A → Action S B)
      → P s
      → ((a : A) → Keeps P (f a))
      → P (elim r as (λ _. Result B × S) [ ok a ↦ f a s | err e ↦ (err e, s) ]).1
  Keeps-bind_result (ok a) s f h k = k a s h
  Keeps-bind_result (err e) s f h k = h

  pub Keeps-bind :
      (m : Action S A) (f : A → Action S B)
      → Keeps P m
      → ((a : A) → Keeps P (f a))
      → Keeps P (m >>= f)
  Keeps-bind m f km kf s h = Keeps-bind_result (m s).0 (m s).1 f (km s h) kf

module _ {S A : Type 0} (P : S → Type 0) where
  keeps_transaction_result :
      (r : Result A) (s s' : S)
      → P s
      → P s'
      → P (elim r as (λ _. Result A × S) [ ok a ↦ (ok a, s') | err e ↦ (err e, s) ]).1
  keeps_transaction_result (ok a) s s' h k = k
  keeps_transaction_result (err e) s s' h k = h

  pub Keeps-transaction : (m : Action S A) → Keeps P m → Keeps P (transaction m)
  Keeps-transaction m km s h = keeps_transaction_result (m s).0 s (m s).1 h (km s h)
