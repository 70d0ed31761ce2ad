-- ===== src/Table/Laws.antt =====
-- What the statements of a table do, row by row.
use relays.Prelude.{
  ◌≡◌, refl, subst, ◌⊎◌, inl, inr, Bool, true, false, not, ◌&&◌, none, some, List, [], ◌∷◌, ◌++◌,
  arith, Bool-cases, map_option, All, All-append,
}
use relays.Core.Result.{Exception, ok, err, check_violation, unique_violation}
use relays.Table.{
  find_first, exists_row, update_where, delete_where, update_returning, insert_returning,
  update_all_returning,
}

module _ {ℓ} {R : Type ℓ} where
  -- The row found meets the condition.
  pub find_first_sound : (p : R → Bool) (t : List R) (r : R) → find_first p t ≡ some r → p r ≡ true
  unfolding find_first
  find_first_sound p [] r h = ground arith
  find_first_sound p (x ∷ t) r h = ground (arith, find_first_sound p t r)

  -- A property of all rows holds of the row found.
  pub All-find_first {κ} :
      (P : R → Type κ) (p : R → Bool) (t : List R) (r : R) → All P t → find_first p t ≡ some r → P r
  unfolding find_first
  All-find_first P p [] r h e = absurd (ground arith)
  All-find_first P p (x ∷ t) r h e = elim (Bool-cases (p x)) [
    | inl hit ↦ subst P (ground arith) h.0
    | inr miss ↦ All-find_first P p t r h.1 (ground arith)
  ]

  -- An update keeps a property that it keeps on each row that it touches.
  pub All-update_where {κ} :
      (P : R → Type κ) (p : R → Bool) (f : R → R) (t : List R)
      → ((r : R) → p r ≡ true → P r → P (f r))
      → All P t
      → All P (update_where p f t)
  unfolding update_where
  All-update_where P p f [] keep h = tt
  All-update_where P p f (x ∷ t) keep h = (
    elim (Bool-cases (p x)) [ inl hit ↦ rw hit (keep x hit h.0) | inr miss ↦ rw miss h.0 ],
    All-update_where P p f t keep h.1,
  )

  -- What no row meets, each row misses.
  pub All-not-exists_row :
      (p : R → Bool) (t : List R) → exists_row p t ≡ false → All (λ r. p r ≡ false) t
  unfolding exists_row
  All-not-exists_row p [] h = tt
  All-not-exists_row p (x ∷ t) h = (ground arith, All-not-exists_row p t (ground arith))

  -- Deleted rows are not found.
  pub find_first-delete_where : (p : R → Bool) (t : List R) → find_first p (delete_where p t) ≡ none
  unfolding find_first delete_where
  find_first-delete_where p [] = refl
  find_first-delete_where p (x ∷ t) = ground (arith, find_first-delete_where p t)

-- Rows that an update takes out of its own condition are not found.
pub find_first-update_where :
    {R : Type 0} (p : R → Bool) (f : R → R) (t : List R)
    → ((r : R) → p (f r) ≡ false)
    → find_first p (update_where p f t) ≡ none
unfolding find_first update_where
find_first-update_where p f [] out = refl
find_first-update_where p f (x ∷ t) out = ground (arith, out x, find_first-update_where p f t out)

-- An UPDATE keeps a property that it keeps on each touched row that passes the constraint.
module _ {κ} {R : Type 0} (P : R → Type κ) (check p : R → Bool) (f : R → R)
    (keep : (r : R) → p r ≡ true → check (f r) ≡ true → P r → P (f r)) where
  All-update_checked :
      (t : List R)
      → exists_row (λ r. p r && not (check (f r))) t ≡ false
      → All P t
      → All P (update_where p f t)
  unfolding update_where exists_row
  All-update_checked [] e h = tt
  All-update_checked (x ∷ t) e h = (
    elim (Bool-cases (p x)) [
      | inl hit ↦ rw hit (keep x hit (ground arith) h.0)
      | inr miss ↦ rw miss h.0
    ],
    All-update_checked t (ground arith) h.1,
  )

  pub All-update_returning : (t : List R) → All P t → All P (update_returning check p f t).1
  unfolding update_returning
  All-update_returning t h = elim (Bool-cases (exists_row (λ r. p r && not (check (f r))) t)) [
    | inl broken ↦ rw broken h
    | inr fine ↦ rw fine (All-update_checked t fine h)
  ]

-- An INSERT keeps a property that the new row has.
pub All-insert_returning {κ} :
    {R : Type 0} (P : R → Type κ) (check : R → Bool) (clashes : R → R → Bool) (row : R) (t : List R)
    → (check row ≡ true → exists_row (clashes row) t ≡ false → P row)
    → All P t
    → All P (insert_returning check clashes row t).1
unfolding insert_returning
All-insert_returning P check clashes row t new h = elim (Bool-cases (check row)) [
  | inr broken ↦ rw broken h
  | inl fits ↦ rw fits (elim (Bool-cases (exists_row (clashes row) t)) [
    | inl taken ↦ rw taken h
    | inr free ↦ rw free (All-append P t (row ∷ []) h (new fits free, tt))
  ])
]

-- An update takes one property of all rows to another, given what it does to the touched and to the
-- other rows.
pub All-update_split {κ} :
    {R : Type 0} (P Q : R → Type κ) (p : R → Bool) (f : R → R) (t : List R)
    → ((r : R) → p r ≡ true → P r → Q (f r))
    → ((r : R) → p r ≡ false → P r → Q r)
    → All P t
    → All Q (update_where p f t)
unfolding update_where
All-update_split P Q p f [] touched other h = tt
All-update_split P Q p f (x ∷ t) touched other h = (
  elim (Bool-cases (p x)) [
    | inl hit ↦ rw hit (touched x hit h.0)
    | inr miss ↦ rw miss (other x miss h.0)
  ],
  All-update_split P Q p f t touched other h.1,
)

-- A condition that an update neither makes nor breaks.
pub exists_row-update_where :
    {R : Type 0} (q p : R → Bool) (f : R → R) (t : List R)
    → ((r : R) → q (f r) ≡ q r)
    → exists_row q (update_where p f t) ≡ exists_row q t
unfolding exists_row update_where
exists_row-update_where q p f [] same = refl
exists_row-update_where q p f (x ∷ t) same =
    ground (arith, same x, exists_row-update_where q p f t same)

pub exists_row-find_first :
    {R : Type 0} (p : R → Bool) (t : List R) (r : R)
    → find_first p t ≡ some r
    → exists_row p t ≡ true
unfolding exists_row find_first
exists_row-find_first p [] r h = cc
exists_row-find_first p (x ∷ t) r h = ground (arith, exists_row-find_first p t r)

pub exists_row-append :
    {R : Type 0} (p : R → Bool) (t u : List R)
    → exists_row p t ≡ true
    → exists_row p (t ++ u) ≡ true
unfolding exists_row
exists_row-append p [] u h = cc
exists_row-append p (x ∷ t) u h = ground (arith, exists_row-append p t u)

-- An UPDATE either breaks the constraint and changes nothing, or updates every row that it selects.
pub update_returning_cases :
    {R : Type 0} (check p : R → Bool) (f : R → R) (t : List R)
    → (update_returning check p f t ≡ (err check_violation, t))
      ⊎ (update_returning check p f t ≡ (ok (map_option f (find_first p t)), update_where p f t))
unfolding update_returning
update_returning_cases check p f t =
    elim (Bool-cases (exists_row (λ r. p r && not (check (f r))) t)) [
      | inl broken ↦ inl (rw broken refl)
      | inr fine ↦ inr (rw fine refl)
    ]

-- An INSERT either raises and changes nothing, or the new row passes the constraint, clashes with no
-- row, and comes at the end.
pub insert_returning_cases :
    {R : Type 0} (check : R → Bool) (clashes : R → R → Bool) (row : R) (t : List R)
    → ((e : Exception) × (insert_returning check clashes row t ≡ (err e, t)))
      ⊎ ((check row ≡ true)
          × (exists_row (clashes row) t ≡ false)
          × (insert_returning check clashes row t ≡ (ok row, t ++ row ∷ [])))
unfolding insert_returning
insert_returning_cases check clashes row t = elim (Bool-cases (check row)) [
  | inr broken ↦ inl (check_violation, rw broken refl)
  | inl fits ↦ elim (Bool-cases (exists_row (clashes row) t)) [
    | inl taken ↦ inl (unique_violation, rw fits (rw taken refl))
    | inr free ↦ inr (fits, free, rw fits (rw free refl))
  ]
]

-- The new row at the end, where no row before it meets the condition.
module _ {R : Type 0} (p : R → Bool) where
  pub find_first-append_new :
      (t : List R) (row : R)
      → exists_row p t ≡ false
      → p row ≡ true
      → find_first p (t ++ row ∷ []) ≡ some row
  unfolding find_first exists_row
  find_first-append_new [] row free hit = ground arith
  find_first-append_new (x ∷ t) row free hit = ground (arith, find_first-append_new t row)

  pub update_where-append_new :
      (f : R → R) (t : List R) (row : R)
      → exists_row p t ≡ false
      → p row ≡ true
      → update_where p f (t ++ row ∷ []) ≡ t ++ f row ∷ []
  unfolding update_where exists_row
  update_where-append_new f [] row free hit = ground arith
  update_where-append_new f (x ∷ t) row free hit = ground (arith, update_where-append_new f t row)

  pub not-exists_row-find_first : (t : List R) → exists_row p t ≡ false → find_first p t ≡ none
  unfolding find_first exists_row
  not-exists_row-find_first [] free = refl
  not-exists_row-find_first (x ∷ t) free = ground (arith, not-exists_row-find_first t)

-- An INSERT that passes the constraint and clashes with no row.
pub insert_returning_ok :
    {R : Type 0} (check : R → Bool) (clashes : R → R → Bool) (row : R) (t : List R)
    → check row ≡ true
    → exists_row (clashes row) t ≡ false
    → insert_returning check clashes row t ≡ (ok row, t ++ row ∷ [])
unfolding insert_returning
insert_returning_ok check clashes row t fits free = rw fits (rw free refl)

-- An INSERT that passes the constraint and clashes with a row.
pub insert_returning_taken :
    {R : Type 0} (check : R → Bool) (clashes : R → R → Bool) (row : R) (t : List R)
    → check row ≡ true
    → exists_row (clashes row) t ≡ true
    → insert_returning check clashes row t ≡ (err unique_violation, t)
unfolding insert_returning
insert_returning_taken check clashes row t fits taken = rw fits (rw taken refl)

-- An UPDATE of the one row of a table that meets its condition.
module _ {R : Type 0} (check p : R → Bool) (f : R → R) (r : R) where
  untouched :
      (t : List R)
      → exists_row p t ≡ false
      → (exists_row (λ x. p x && not (check (f x))) t ≡ false) × (update_where p f t ≡ t)
  unfolding exists_row update_where
  untouched [] free = (refl, refl)
  untouched (x ∷ t) free = ground (arith, untouched t (ground arith))

  one_update :
      (before after : List R)
      → exists_row p before ≡ false
      → exists_row p after ≡ false
      → p r ≡ true
      → check (f r) ≡ true
      → (exists_row (λ x. p x && not (check (f x))) (before ++ r ∷ after) ≡ false)
        × (update_where p f (before ++ r ∷ after) ≡ before ++ f r ∷ after)
        × (find_first p (before ++ r ∷ after) ≡ some r)
  unfolding exists_row update_where find_first
  one_update [] after free free' hit fits = ground (arith, untouched after free')
  one_update (x ∷ before) after free free' hit fits =
      ground (arith, one_update before after (ground arith) free' hit fits)

  pub update_returning-one :
      (before after : List R)
      → exists_row p before ≡ false
      → exists_row p after ≡ false
      → p r ≡ true
      → check (f r) ≡ true
      → update_returning check p f (before ++ r ∷ after) ≡ (ok (some (f r)), before ++ f r ∷ after)
  unfolding update_returning
  update_returning-one before after free free' hit fits =
      let (fine, done, found) = one_update before after free free' hit fits in
      rw (fine, done, found) refl

-- An INSERT breaks the constraint, clashes, or gives the row.
pub insert_returning_raises :
    {R : Type 0} (check : R → Bool) (clashes : R → R → Bool) (row : R) (t : List R)
    → (insert_returning check clashes row t ≡ (err check_violation, t))
      ⊎ ((insert_returning check clashes row t ≡ (err unique_violation, t))
          ⊎ (insert_returning check clashes row t ≡ (ok row, t ++ row ∷ [])))
unfolding insert_returning
insert_returning_raises check clashes row t = elim (Bool-cases (check row)) [
  | inr broken ↦ inl (rw broken refl)
  | inl fits ↦ elim (Bool-cases (exists_row (clashes row) t)) [
    | inl taken ↦ inr (inl (rw fits (rw taken refl)))
    | inr free ↦ inr (inr (rw fits (rw free refl)))
  ]
]

-- Whether one row comes back or all, the table afterwards is the same.
pub update_all_returning-state :
    {R : Type 0} (check p : R → Bool) (f : R → R) (t : List R)
    → (update_all_returning check p f t).1 ≡ (update_returning check p f t).1
unfolding update_all_returning update_returning
update_all_returning-state check p f t =
    elim (Bool-cases (exists_row (λ r. p r && not (check (f r))) t)) [
      | inl broken ↦ rw broken refl
      | inr fine ↦ rw fine refl
    ]
