-- ===== src/Table.antt =====
-- A table of the database as the list of its rows, and the statements that the query modules send:
-- SELECT … WHERE for one row, UPDATE … WHERE … RETURNING, INSERT … RETURNING, DELETE … WHERE.
-- CHECK constraints and unique indexes are those of app/infra/db/schemas; a statement that breaks
-- one raises and changes nothing.
pub mod Laws
pub mod Evolve
pub mod Order
pub mod Partition
pub mod Membership
use relays.Prelude.{
  Bool, true, false, not, ◌&&◌, ◌||◌, Option, none, some, List, [], ◌∷◌, ◌++◌, map, if◌then◌else◌,
  map_option,
}
use relays.Core.Result.{Result, ok, err, Action, check_violation, unique_violation}

module _ {ℓ} {R : Type ℓ} where
  -- The first row that meets the condition, as `fetchrow` returns it.
  unfoldable pub find_first : (R → Bool) → List R → Option R
  find_first p [] = none
  find_first p (r ∷ t) = if p r then some r else find_first p t

  unfoldable pub select_where : (R → Bool) → List R → List R
  select_where p [] = []
  select_where p (r ∷ t) = let rest = select_where p t in if p r then r ∷ rest else rest

  unfoldable pub exists_row : (R → Bool) → List R → Bool
  exists_row p [] = false
  exists_row p (r ∷ t) = p r || exists_row p t

  unfoldable pub update_where : (R → Bool) → (R → R) → List R → List R
  update_where p f [] = []
  update_where p f (r ∷ t) = (if p r then f r else r) ∷ update_where p f t

  unfoldable pub delete_where : (R → Bool) → List R → List R
  delete_where p [] = []
  delete_where p (r ∷ t) = let rest = delete_where p t in if p r then rest else r ∷ rest

-- UPDATE … SET f WHERE p RETURNING *, under the row constraint `check`: the first updated row.
unfoldable pub update_returning :
    {R : Type 0} → (R → Bool) → (R → Bool) → (R → R) → Action (List R) (Option R)
update_returning check p f t =
    if exists_row (λ r. p r && not (check (f r))) t
    then (err check_violation, t)
    else (ok (map_option f (find_first p t)), update_where p f t)

-- The same with `fetch`: all the updated rows.
unfoldable pub update_all_returning :
    {R : Type 0} → (R → Bool) → (R → Bool) → (R → R) → Action (List R) (List R)
update_all_returning check p f t =
    if exists_row (λ r. p r && not (check (f r))) t
    then (err check_violation, t)
    else (ok (map f (select_where p t)), update_where p f t)

-- INSERT … RETURNING *, under the row constraint `check` and the unique indexes in which the row
-- `clashes` with another.
unfoldable pub insert_returning : {R : Type 0} → (R → Bool) → (R → R → Bool) → R → Action (List R) R
insert_returning check clashes row t =
    if not (check row)
    then (err check_violation, t)
    else if exists_row (clashes row) t
    then (err unique_violation, t)
    else (ok row, t ++ row ∷ [])
