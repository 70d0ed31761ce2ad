-- ===== src/Table/Order.antt =====
-- ORDER BY: the rows of a result in an order, of which the database leaves ties open; here the first of
-- two tied rows stays first.
use mathlib.Core.List.{Perm}
use mathlib.Core.List.Perm
use relays.Prelude.{
  ◌≡◌, inl, inr, Bool, true, false, List, [], ◌∷◌, if◌then◌else◌, Bool-cases, All, All-map,
}

module _ {R : Type 0} (before : R → R → Bool) where
  unfoldable pub insert_row : R → List R → List R
  insert_row r [] = r ∷ []
  insert_row r (x ∷ t) = if before r x then r ∷ x ∷ t else x ∷ insert_row r t

  unfoldable pub order_by : List R → List R
  order_by [] = []
  order_by (r ∷ t) = insert_row r (order_by t)

  -- Each row before all that follow.
  abbrev pub InOrder : List R → Type 0
  InOrder [] = Unit
  InOrder (r ∷ t) = All (λ x. before r x ≡ true) t × InOrder t

  insert_row-Perm : (r : R) (t : List R) → Perm (insert_row r t) (r ∷ t)
  unfolding insert_row
  insert_row-Perm r [] = Perm.refl (r ∷ [])
  insert_row-Perm r (x ∷ t) = elim (Bool-cases (before r x)) [
    | inl first ↦ rw first (Perm.refl (r ∷ x ∷ t))
    | inr later ↦ rw later (Perm.trans (Perm.cons x (insert_row-Perm r t)) (Perm.swap r x t))
  ]

  pub order_by-Perm : (t : List R) → Perm (order_by t) t
  unfolding order_by
  order_by-Perm [] = Perm.refl []
  order_by-Perm (r ∷ t) =
      Perm.trans (insert_row-Perm r (order_by t)) (Perm.cons r (order_by-Perm t))

  All-insert_row : (P : R → Type 0) (r : R) (t : List R) → P r → All P t → All P (insert_row r t)
  unfolding insert_row
  All-insert_row P r [] h k = (h, tt)
  All-insert_row P r (x ∷ t) h k = elim (Bool-cases (before r x)) [
    | inl first ↦ rw first (h, k)
    | inr later ↦ rw later (k.0, All-insert_row P r t h k.1)
  ]

  pub All-order_by : (P : R → Type 0) (t : List R) → All P t → All P (order_by t)
  unfolding order_by
  All-order_by P [] h = tt
  All-order_by P (r ∷ t) h = All-insert_row P r (order_by t) h.0 (All-order_by P t h.1)

  module _ (total : (r x : R) → before r x ≡ false → before x r ≡ true)
      (trans : (r x y : R) → before r x ≡ true → before x y ≡ true → before r y ≡ true) where
    insert_row-InOrder : (r : R) (t : List R) → InOrder t → InOrder (insert_row r t)
    unfolding insert_row
    insert_row-InOrder r [] h = (tt, tt)
    insert_row-InOrder r (x ∷ t) h = elim (Bool-cases (before r x)) [
      | inl first ↦ rw first ((first, All-map _ _ t (λ y. trans r x y first) h.0), h)
      | inr later ↦ rw later (
        All-insert_row (λ y. before x y ≡ true) r t (total r x later) h.0,
        insert_row-InOrder r t h.1,
      )
    ]

    pub order_by-InOrder : (t : List R) → InOrder (order_by t)
    unfolding order_by
    order_by-InOrder [] = tt
    order_by-InOrder (r ∷ t) = insert_row-InOrder r (order_by t) (order_by-InOrder t)
