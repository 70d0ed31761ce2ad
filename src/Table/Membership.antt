-- ===== src/Table/Membership.antt =====
-- The rows of a table and of a result.
use relays.Prelude.{
  ◌≡◌, refl, ap, ◌∙◌, inl, inr, Bool, true, List, [], ◌∷◌, ◌++◌, map, Bool-cases, All, All-map,
}
use relays.Table.{select_where}
use relays.Table.Order.{order_by, insert_row}
use relays.Table.Partition.{IsIn}

module _ {R : Type 0} where
  pub IsIn-append_left : (r : R) (t u : List R) → IsIn r t → IsIn r (t ++ u)
  IsIn-append_left r [] u h = absurd h
  IsIn-append_left r (x ∷ t) u (inl same) = inl same
  IsIn-append_left r (x ∷ t) u (inr later) = inr (IsIn-append_left r t u later)

  pub IsIn-append_right : (r : R) (t u : List R) → IsIn r u → IsIn r (t ++ u)
  IsIn-append_right r [] u h = h
  IsIn-append_right r (x ∷ t) u h = inr (IsIn-append_right r t u h)

  pub IsIn-select_where :
      (p : R → Bool) (r : R) (t : List R) → p r ≡ true → IsIn r t → IsIn r (select_where p t)
  unfolding select_where
  IsIn-select_where p r [] hit h = absurd h
  IsIn-select_where p r (x ∷ t) hit (inl same) =
      let here : p x ≡ true = ap p same ∙ hit in rw here (inl same)
  IsIn-select_where p r (x ∷ t) hit (inr later) = elim (Bool-cases (p x)) [
    | inl kept ↦ rw kept (inr (IsIn-select_where p r t hit later))
    | inr left ↦ rw left (IsIn-select_where p r t hit later)
  ]

  pub IsIn-insert_row :
      (before : R → R → Bool) (r x : R) (t : List R)
      → IsIn r (x ∷ t)
      → IsIn r (insert_row before x t)
  unfolding insert_row
  IsIn-insert_row before r x [] h = h
  IsIn-insert_row before r x (y ∷ t) h = elim (Bool-cases (before x y)) [
    | inl first ↦ rw first h
    | inr later ↦ rw later (elim h [
      | inl same ↦ inr (IsIn-insert_row before r x t (inl same))
      | inr (inl same) ↦ inl same
      | inr (inr rest) ↦ inr (IsIn-insert_row before r x t (inr rest))
    ])
  ]

  pub IsIn-order_by :
      (before : R → R → Bool) (r : R) (t : List R) → IsIn r t → IsIn r (order_by before t)
  unfolding order_by
  IsIn-order_by before r [] h = h
  IsIn-order_by before r (x ∷ t) (inl same) =
      IsIn-insert_row before r x (order_by before t) (inl same)
  IsIn-order_by before r (x ∷ t) (inr later) =
      IsIn-insert_row before r x (order_by before t) (inr (IsIn-order_by before r t later))

  pub All-IsIn : (P : R → Type 0) (t : List R) → ((r : R) → IsIn r t → P r) → All P t
  All-IsIn P [] f = tt
  All-IsIn P (x ∷ t) f = (f x (inl refl), All-IsIn P t (λ r h. f r (inr h)))

  pub selected : (p : R → Bool) (t : List R) → All (λ r. IsIn r t × (p r ≡ true)) (select_where p t)
  unfolding select_where
  selected p [] = tt
  selected p (x ∷ t) =
      let rest =
        All-map (λ r. IsIn r t × (p r ≡ true)) (λ r. IsIn r (x ∷ t) × (p r ≡ true))
          (select_where p t) (λ r h. (inr h.0, h.1)) (selected p t) in
      elim (Bool-cases (p x)) [ inl hit ↦ rw hit ((inl refl, hit), rest) | inr miss ↦ rw miss rest ]

module _ {R S : Type 0} (f : R → S) where
  pub IsIn-map : (r : R) (t : List R) → IsIn r t → IsIn (f r) (map f t)
  IsIn-map r [] h = absurd h
  IsIn-map r (x ∷ t) (inl same) = inl (ap f same)
  IsIn-map r (x ∷ t) (inr later) = inr (IsIn-map r t later)

  pub All-mapped : (P : S → Type 0) (t : List R) → All (λ r. P (f r)) t → All P (map f t)
  All-mapped P [] h = tt
  All-mapped P (x ∷ t) h = (h.0, All-mapped P t h.1)
