-- ===== src/Migrations.antt =====
-- app/infra/db/migration_runner.py. What a script does to the database, the table schema_version included,
-- is a parameter.
pub mod Twice
use relays.Prelude.{
  ℕ, zero, suc, ◌+◌, ◌-◌, ◌*◌, ◌^◌, ◌≤◌, ◌<◌, min, String, ◌≡◌, refl, sym, ap, subst, ◌∙◌, ◌≢◌, ◌⊎◌,
  inl, inr, Bool, true, false, not, ◌&&◌, ◌||◌, Option, none, some, List, [], ◌∷◌, ◌++◌, map, arith,
  str_eq, Uuid, Digest, Time, ltb, leb, ◌==◌, if◌then◌else◌, Bool-cases, Option-cases, ==_refl,
  is_some, map_option, All, length, take, All-append, All-map, length-append,
}
use relays.Core.Result.{
  Result, ok, err, Action, pure, raise, transaction, ◌>>=◌, ◌>>◌, value_error, unique_violation,
}
use relays.Table.{exists_row}
use relays.Table.Order.{order_by}
use relays.Text.{chars}

-- A file of a schema phase by the parts of its path below the phase, and a file of the migrations by its
-- name without `.sql`.
pub record SchemaFile (Script : Type 0) : Type 0 where
  pub parts : List (List ℕ)
  pub script : Script

pub record MigrationFile (Script : Type 0) : Type 0 where
  pub stem : List ℕ
  pub script : Script

-- The directory of the schemas: the files of each phase that exists, and that of the migrations.
pub record Files (Script : Type 0) : Type 0 where
  pub phase : String → Option (List (SchemaFile Script))
  pub migrations : List (MigrationFile Script)

-- The database, with the table schema_version apart; a table that is missing is an empty one.
pub record Schema (D : Type 0) : Type 0 where
  pub content : D
  pub versions : List ℕ

-- Python's order on texts, and the order of paths by their parts.
unfoldable pub text_le : List ℕ → List ℕ → Bool
text_le [] t = true
text_le (c ∷ s) [] = false
text_le (c ∷ s) (d ∷ t) = let rest = text_le s t in ltb c d || (c == d && rest)

unfoldable pub parts_le : List (List ℕ) → List (List ℕ) → Bool
parts_le [] qs = true
parts_le (p ∷ ps) [] = false
parts_le (p ∷ ps) (q ∷ qs) = let rest = parts_le ps qs in text_le p q && (not (text_le q p) || rest)

unfoldable pub file_name : {Script : Type 0} → MigrationFile Script → List ℕ
file_name f = f.stem ++ chars ".sql"

-- `split("_")[0]`
unfoldable pub before_underscore : List ℕ → List ℕ
before_underscore [] = []
before_underscore (c ∷ s) = let rest = before_underscore s in if c == 95 then [] else c ∷ rest

abbrev pub schema_phases : List String
schema_phases = "00-types" ∷ "01-tables" ∷ "02-constraints" ∷ "03-indexes" ∷ []

-- SELECT MAX(version) FROM schema_version
abbrev pub or_larger : ℕ → Option ℕ → ℕ
or_larger v none = v
or_larger v (some w) = if ltb v w then w else v

unfoldable pub max_version : List ℕ → Option ℕ
max_version [] = none
max_version (v ∷ vs) = some (or_larger v (max_version vs))

module _ {D Script : Type 0} (execute : Script → Action (Schema D) (Unit {0}))
    (int : List ℕ → Option ℕ) where
  unfoldable pub insert_version : ℕ → Action (Schema D) (Unit {0})
  insert_version v s =
      if exists_row (λ w. w == v) s.versions
      then (err unique_violation, s)
      else (ok tt, record s { versions = s.versions ++ v ∷ [] })

  unfoldable pub execute_files : List (SchemaFile Script) → Action (Schema D) (Unit {0})
  execute_files [] = pure tt
  execute_files (f ∷ fs) = execute f.script >> execute_files fs

  abbrev pub execute_phase : Option (List (SchemaFile Script)) → Action (Schema D) (Unit {0})
  execute_phase none = pure tt
  execute_phase (some files) = execute_files (order_by (λ f g. parts_le f.parts g.parts) files)

  unfoldable pub run_phases : Files Script → List String → Action (Schema D) (Unit {0})
  run_phases files [] = pure tt
  run_phases files (p ∷ ps) = execute_phase (files.phase p) >> run_phases files ps

  unfoldable pub run_base_schema : Files Script → Action (Schema D) (Unit {0})
  run_base_schema files = run_phases files schema_phases

  -- A fresh database gets the base schema, as version 0.
  unfoldable pub base_version : Files Script → Option ℕ → Action (Schema D) ℕ
  base_version files (some current_version) = pure current_version
  base_version files none = transaction (run_base_schema files >> insert_version 0) >> pure 0

  unfoldable pub apply_migration :
      MigrationFile Script → (version : ℕ) → Action (Schema D) (Unit {0})
  apply_migration f version = transaction (execute f.script >> insert_version version)

  abbrev pub version_of : MigrationFile Script → Option ℕ
  version_of f = int (before_underscore f.stem)

  unfoldable pub apply_pending :
      List (MigrationFile Script) → (current_version : ℕ) → Action (Schema D) ℕ
  apply_pending [] current_version = pure current_version
  apply_pending (f ∷ fs) current_version = elim (version_of f) [
    | none ↦ raise (value_error "invalid literal for int() with base 10")
    | some version ↦
        if leb version current_version
        then apply_pending fs current_version
        else apply_migration f version >> apply_pending fs version
  ]

  -- The source returns nothing; the model returns the version that is current at the end.
  unfoldable pub run_migrations : Files Script → Action (Schema D) ℕ
  run_migrations files s =
      (base_version files (max_version s.versions)
          >>= apply_pending
              (order_by (λ f g. text_le (file_name f) (file_name g)) files.migrations))
        s
