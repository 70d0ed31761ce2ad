-- ===== src/Table/Partition.antt =====
-- A result with WHERE, ORDER BY and LIMIT, and the rows that it leaves out.
use mathlib.Core.List.{Perm, perm_middle}
use mathlib.Core.List.Perm
use relays.Prelude.{
  ℕ, zero, suc, ◌≡◌, refl, sym, ap, subst, inl, inr, Bool, true, false, not, List, [], ◌∷◌, ◌++◌,
  arith, Bool-cases, All, length, take, All-map, ◌⊎◌,
}
use relays.Table.{select_where}
use relays.Table.Order.{InOrder, order_by, order_by-Perm}

module _ {R : Type 0} where
  -- Each row stands in the relation to all that follow.
  abbrev pub EachBefore : (R → R → Type 0) → List R → Type 0
  EachBefore Q [] = Unit
  EachBefore Q (r ∷ t) = All (Q r) t × EachBefore Q t

  abbrev pub IsIn : R → List R → Type 0
  IsIn r [] = ⊥
  IsIn r (x ∷ t) = (x ≡ r) ⊎ IsIn r t

  -- The rows after the first `k`.
  abbrev pub skip : ℕ → List R → List R
  skip zero t = t
  skip (suc k) [] = []
  skip (suc k) (r ∷ t) = skip k t

  abbrev pub others : (R → Bool) → List R → List R
  others p t = select_where (λ r. not (p r)) t

  All-All : (P : R → Type 0) → ((r : R) → P r) → (t : List R) → All P t
  All-All P f [] = tt
  All-All P f (r ∷ t) = (f r, All-All P f t)

  pub All-zip : (P Q : R → Type 0) (t : List R) → All P t → All Q t → All (λ r. P r × Q r) t
  All-zip P Q [] h k = tt
  All-zip P Q (r ∷ t) h k = ((h.0, k.0), All-zip P Q t h.1 k.1)

  pub InOrder-EachBefore :
      (before : R → R → Bool) (P : R → Type 0) (Q : R → R → Type 0) (t : List R)
      → ((r x : R) → P r → P x → before r x ≡ true → Q r x)
      → All P t
      → InOrder before t
      → EachBefore Q t
  InOrder-EachBefore before P Q [] f h k = tt
  InOrder-EachBefore before P Q (r ∷ t) f h k = (
    All-map (λ x. P x × (before r x ≡ true)) (Q r) t (λ x j. f r x h.0 j.0 j.1)
        (All-zip P (λ x. before r x ≡ true) t h.1 k.0),
    InOrder-EachBefore before P Q t f h.1 k.1,
  )

  pub All-select_where : (p : R → Bool) (t : List R) → All (λ r. p r ≡ true) (select_where p t)
  unfolding select_where
  All-select_where p [] = tt
  All-select_where p (x ∷ t) = elim (Bool-cases (p x)) [
    | inl hit ↦ rw hit (hit, All-select_where p t)
    | inr miss ↦ rw miss (All-select_where p t)
  ]

  pub All-others : (p : R → Bool) (t : List R) → All (λ r. p r ≡ false) (others p t)
  All-others p t =
      All-map (λ r. not (p r) ≡ true) (λ r. p r ≡ false) (others p t) (λ r h. ground arith)
        (All-select_where (λ r. not (p r)) t)

  select-Perm : (p : R → Bool) (t : List R) → Perm (select_where p t ++ others p t) t
  unfolding select_where
  select-Perm p [] = Perm.refl []
  select-Perm p (x ∷ t) = elim (Bool-cases (p x)) [
    | inl hit ↦ rw hit (Perm.cons x (select-Perm p t))
    | inr miss ↦
        rw miss
          (Perm.trans (perm_middle (select_where p t) (others p t)) (Perm.cons x (select-Perm p t)))
  ]

  take-skip : (k : ℕ) (t u : List R) → take k t ++ (skip k t ++ u) ≡ t ++ u
  take-skip zero t u = refl
  take-skip (suc k) [] u = refl
  take-skip (suc k) (r ∷ t) u = ap (λ v. r ∷ v) (take-skip k t u)

  -- The ordered result and the rows that do not meet the condition are the table.
  pub ordered-Perm :
      (before : R → R → Bool) (p : R → Bool) (t : List R)
      → Perm (order_by before (select_where p t) ++ others p t) t
  ordered-Perm before p t =
      Perm.trans (Perm.append_right (others p t) (order_by-Perm before (select_where p t)))
        (select-Perm p t)

  -- So are the first rows of the result, the other ones, and the rows that do not meet the condition.
  pub limited-Perm :
      (before : R → R → Bool) (p : R → Bool) (k : ℕ) (t : List R)
      → let rows = order_by before (select_where p t) in
        Perm (take k rows ++ (skip k rows ++ others p t)) t
  limited-Perm before p k t =
      subst (λ v. Perm v t) (sym (take-skip k (order_by before (select_where p t)) (others p t)))
        (ordered-Perm before p t)

  pub All-take : (P : R → Type 0) (k : ℕ) (t : List R) → All P t → All P (take k t)
  All-take P zero t h = tt
  All-take P (suc k) [] h = tt
  All-take P (suc k) (r ∷ t) h = (h.0, All-take P k t h.1)

  pub All-skip : (P : R → Type 0) (k : ℕ) (t : List R) → All P t → All P (skip k t)
  All-skip P zero t h = h
  All-skip P (suc k) [] h = tt
  All-skip P (suc k) (r ∷ t) h = All-skip P k t h.1

  pub EachBefore-take :
      (Q : R → R → Type 0) (k : ℕ) (t : List R) → EachBefore Q t → EachBefore Q (take k t)
  EachBefore-take Q zero t h = tt
  EachBefore-take Q (suc k) [] h = tt
  EachBefore-take Q (suc k) (r ∷ t) h = (All-take (Q r) k t h.0, EachBefore-take Q k t h.1)

  -- A row that the limit leaves out comes after `k` rows that it does not.
  pub All-skipped :
      (Q : R → R → Type 0) (k : ℕ) (t : List R)
      → EachBefore Q t
      → All (λ x. (length (take k t) ≡ k) × All (λ r. Q r x) (take k t)) (skip k t)
  All-skipped Q zero t h = All-All (λ x. (0 ≡ 0) × Unit {0}) (λ x. (refl, tt)) t
  All-skipped Q (suc k) [] h = tt
  All-skipped Q (suc k) (r ∷ t) h =
      All-map (λ x. ((length (take k t) ≡ k) × All (λ y. Q y x) (take k t)) × Q r x)
        (λ x. (length (r ∷ take k t) ≡ suc k) × All (λ y. Q y x) (r ∷ take k t)) (skip k t)
        (λ x j. (omega (arith, j.0.0), (j.1, j.0.1)))
        (All-zip (λ x. (length (take k t) ≡ k) × All (λ y. Q y x) (take k t)) (Q r) (skip k t)
          (All-skipped Q k t h.1) (All-skip (Q r) k t h.0))
