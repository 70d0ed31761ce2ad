-- ===== src/Tests/Schema.antt =====
-- Migrations on concrete files: the content of the database is the list of the scripts that ran.
use relays.Prelude.{
  ℕ, ◌+◌, ◌-◌, ◌*◌, String, ◌≡◌, refl, ap, Option, none, some, List, [], ◌∷◌, ◌++◌, str_eq,
  if◌then◌else◌,
}
use relays.Core.Result.{ok, Action}
use relays.Table.{exists_row}
use relays.Table.Order.{order_by, insert_row}
use relays.Text.{chars}
use relays.Migrations.{
  file_name, Files, Schema, SchemaFile, text_le, parts_le, before_underscore, max_version,
  insert_version, execute_files, run_phases, run_base_schema, base_version, apply_migration,
  apply_pending, run_migrations,
}
use relays.Migrations.Twice.{run_migrations_twice}

abbrev note : ℕ → Action (Schema (List ℕ)) (Unit {0})
note script s = (ok tt, record s { content = s.content ++ script ∷ [] })

abbrev digits : (value : ℕ) → List ℕ → Option ℕ
digits value [] = some value
digits value (c ∷ s) = digits (value * 10 + (c - 48)) s

abbrev users_table : String → Option (List (SchemaFile ℕ))
users_table phase =
    if str_eq phase "01-tables"
    then some (record { parts = (117 ∷ []) ∷ []; script = 900 } ∷ [])
    else none

-- 2_b.sql and 10_a.sql
abbrev files : Files ℕ
files = record {
  phase = users_table;
  migrations =
      record { stem = 50 ∷ 95 ∷ 98 ∷ []; script = 2 }
      ∷ record { stem = 49 ∷ 48 ∷ 95 ∷ 97 ∷ []; script = 10 }
      ∷ [];
}

abbrev fresh : Schema (List ℕ)
fresh = record { content = []; versions = [] }

-- By its name, 10_a.sql comes first, and 2_b.sql is then taken for an old one.
second_migration_skipped :
    run_migrations note (digits 0) files fresh
    ≡ (ok 10, record { content = 900 ∷ 10 ∷ []; versions = 0 ∷ 10 ∷ [] })
unfolding exists_row order_by insert_row text_le parts_le before_underscore max_version
    insert_version execute_files run_phases run_base_schema base_version apply_migration
    apply_pending run_migrations file_name chars
second_migration_skipped = refl

run_migrations_twice_example :
    run_migrations note (digits 0) files (run_migrations note (digits 0) files fresh).1
    ≡ (ok 10, (run_migrations note (digits 0) files fresh).1)
run_migrations_twice_example =
    run_migrations_twice note (digits 0) (λ _ _. refl) files fresh 10
      (ap (λ x. x.0) second_migration_skipped)
