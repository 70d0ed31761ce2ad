-- ===== src/Table/Evolve.antt =====
-- How a table changes over time when its rows are updated in place and new rows come at the end:
-- each old row still stands at its place, changed as a relation allows.
use relays.Prelude.{
  ◌≡◌, inl, inr, Bool, true, false, not, ◌&&◌, List, [], ◌∷◌, ◌++◌, arith, Bool-cases, All,
}
use relays.Table.{exists_row, update_where, update_returning, insert_returning}

module _ {R : Type 0} (Q : R → R → Type 0) where
  abbrev pub Evolve : List R → List R → Type 0
  Evolve [] u = Unit
  Evolve (r ∷ t) [] = ⊥
  Evolve (r ∷ t) (s ∷ u) = Q r s × Evolve t u

module _ {R : Type 0} (Q : R → R → Type 0) (Q-refl : (r : R) → Q r r) where
  pub Evolve-refl : (t : List R) → Evolve Q t t
  Evolve-refl [] = tt
  Evolve-refl (r ∷ t) = (Q-refl r, Evolve-refl t)

  pub Evolve-append : (t u : List R) → Evolve Q t (t ++ u)
  Evolve-append [] u = tt
  Evolve-append (r ∷ t) u = (Q-refl r, Evolve-append t u)

  pub Evolve-insert_returning :
      (check : R → Bool) (clashes : R → R → Bool) (row : R) (t : List R)
      → Evolve Q t (insert_returning check clashes row t).1
  unfolding insert_returning
  Evolve-insert_returning check clashes row t = elim (Bool-cases (check row)) [
    | inr broken ↦ rw broken (Evolve-refl t)
    | inl fits ↦ rw fits (elim (Bool-cases (exists_row (clashes row) t)) [
      | inl taken ↦ rw taken (Evolve-refl t)
      | inr free ↦ rw free (Evolve-append t (row ∷ []))
    ])
  ]

  -- The rows may be known to meet the constraint before, as those of a table always do.
  module _ (check p : R → Bool) (f : R → R)
      (step : (r : R) → check r ≡ true → check (f r) ≡ true → Q r (f r)) where
    Evolve-update_checked :
        (t : List R)
        → All (λ r. check r ≡ true) t
        → exists_row (λ r. p r && not (check (f r))) t ≡ false
        → Evolve Q t (update_where p f t)
    unfolding update_where exists_row
    Evolve-update_checked [] h e = tt
    Evolve-update_checked (x ∷ t) h e = (
      elim (Bool-cases (p x)) [
        | inl hit ↦ rw hit (step x h.0 (ground arith))
        | inr miss ↦ rw miss (Q-refl x)
      ],
      Evolve-update_checked t h.1 (ground arith),
    )

    pub Evolve-update_returning :
        (t : List R) → All (λ r. check r ≡ true) t → Evolve Q t (update_returning check p f t).1
    unfolding update_returning
    Evolve-update_returning t h = elim (Bool-cases (exists_row (λ r. p r && not (check (f r))) t)) [
      | inl broken ↦ rw broken (Evolve-refl t)
      | inr fine ↦ rw fine (Evolve-update_checked t h fine)
    ]

module _ {R : Type 0} (Q : R → R → Type 0) (Q-trans : (a b c : R) → Q a b → Q b c → Q a c) where
  pub Evolve-trans : (t u v : List R) → Evolve Q t u → Evolve Q u v → Evolve Q t v
  Evolve-trans [] u v h k = tt
  Evolve-trans (r ∷ t) [] v h k = absurd h
  Evolve-trans (r ∷ t) (s ∷ u) [] h k = absurd k
  Evolve-trans (r ∷ t) (s ∷ u) (w ∷ v) h k = (Q-trans r s w h.0 k.0, Evolve-trans t u v h.1 k.1)
