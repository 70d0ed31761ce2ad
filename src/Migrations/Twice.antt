-- ===== src/Migrations/Twice.antt =====
-- A run of the migrations right after one that succeeded.
use relays.Prelude.{
  ℕ, ◌≤◌, ◌<◌, String, ◌≡◌, refl, inl, inr, true, Option, none, some, List, [], ◌∷◌, ◌++◌, arith,
  leb, ◌==◌, Bool-cases, Option-cases, All, All-map,
}
use relays.Core.Result.{ok, Action, pure, transaction, ◌>>◌}
use relays.Core.Triple.{OnOk, OnOk-bind, OnOk-weaken, OnOk-result, OnOk-transaction}
use relays.Table.{exists_row}
use relays.Table.Order.{order_by}
use relays.Migrations.{
  SchemaFile, parts_le, schema_phases, execute_files, execute_phase, run_phases, Files, Schema,
  MigrationFile, text_le, file_name, max_version, or_larger, insert_version, run_base_schema,
  base_version, apply_migration, version_of, apply_pending, run_migrations,
}

-- The largest version is above all.
max_version_above : (vs : List ℕ) (c : ℕ) → max_version vs ≡ some c → All (λ w. w ≤ c) vs
unfolding max_version
max_version_above [] c largest = tt
max_version_above (w ∷ []) c largest = (ground arith, tt)
max_version_above (w ∷ x ∷ vs) c largest =
    let d = or_larger x (max_version vs) in
    let more : d ≤ c = ground arith in
    (
      ground arith,
      All-map (λ v. v ≤ d) (λ v. v ≤ c) (x ∷ vs) (λ v below. omega (arith, below, more))
          (max_version_above (x ∷ vs) d refl),
    )

-- A new version above all others is the largest.
max_version-append :
    (vs : List ℕ) (v : ℕ) → All (λ w. w < v) vs → max_version (vs ++ v ∷ []) ≡ some v
unfolding max_version
max_version-append [] v above = refl
max_version-append (w ∷ vs) v above = rw (max_version-append vs v above.1) (ground (arith, above.0))

module _ {D Script : Type 0} (execute : Script → Action (Schema D) (Unit {0}))
    (int : List ℕ → Option ℕ)
    (leaves : (script : Script) (s : Schema D)
      → OnOk (λ _ u. u.versions ≡ s.versions) (execute script s)) where
  -- The file has a version that is not above `c`.
  abbrev Covered : ℕ → MigrationFile Script → Type 0
  Covered c f = (v : ℕ) × (version_of execute int f ≡ some v) × (v ≤ c)

  abbrev Current : ℕ → Schema D → Type 0
  Current c s = max_version s.versions ≡ some c

  All-skipped :
      (fs : List (MigrationFile Script)) (c : ℕ) (s : Schema D)
      → All (Covered c) fs
      → apply_pending execute int fs c s ≡ (ok c, s)
  unfolding apply_pending
  All-skipped [] c s covered = refl
  All-skipped (f ∷ fs) c s covered =
      let (v, version, below) = covered.0 in
      let skip : leb v c ≡ true = ground (arith, below) in
      rw (apply_pending, version, skip) (All-skipped fs c s covered.1)

  -- What is left by a script and the insertion of its version.
  insert_version-Current :
      (v c : ℕ) (s : Schema D)
      → Current c s
      → c < v
      → OnOk (λ _ u. Current v u) (insert_version execute int v s)
  unfolding insert_version
  insert_version-Current v c s current above =
      elim (Bool-cases (exists_row (λ w. w == v) s.versions)) [
        | inl taken ↦ rw (taken, OnOk) tt
        | inr free ↦
            rw (free, OnOk)
              (max_version-append s.versions v (
                All-map (λ w. w ≤ c) (λ w. w < v) s.versions
                  (λ w below. omega (arith, below, above))
                  (max_version_above s.versions c current)))
      ]

  execute-Current :
      (script : Script) (c : ℕ) (s : Schema D)
      → Current c s
      → OnOk (λ _ u. Current c u) (execute script s)
  execute-Current script c s current =
      OnOk-weaken (λ _ u. u.versions ≡ s.versions) (λ _ u. Current c u) (execute script s)
        (λ _ u same. rw same current) (leaves script s)

  apply_migration-Current :
      (f : MigrationFile Script) (v c : ℕ) (s : Schema D)
      → Current c s
      → c < v
      → OnOk (λ _ u. Current v u) (apply_migration execute int f v s)
  unfolding apply_migration
  apply_migration-Current f v c s current above =
      let body = execute f.script >> insert_version execute int v in
      OnOk-transaction (λ _ u. Current v u) body s
        (OnOk-bind {B = Unit {0}} (λ _ u. Current c u) (λ _ u. Current v u) (execute f.script)
          (λ _. insert_version execute int v) s (execute-Current f.script c s current)
          (λ _ u k. insert_version-Current v c u k above))

  -- After the files, the current version is the largest, and above that of every file.
  abbrev Applied : List (MigrationFile Script) → (from : ℕ) → ℕ → Schema D → Type 0
  Applied fs from c u = Current c u × (from ≤ c) × All (Covered c) fs

  apply_pending-Applied :
      (fs : List (MigrationFile Script)) (c : ℕ) (s : Schema D)
      → Current c s
      → OnOk (Applied fs c) (apply_pending execute int fs c s)
  unfolding apply_pending
  apply_pending-Applied [] c s current = (current, omega arith, tt)
  apply_pending-Applied (f ∷ fs) c s current = elim (Option-cases (version_of execute int f)) [
    | inl none_there ↦ rw (apply_pending, none_there, OnOk) tt
    | inr (v, version) ↦ elim (Bool-cases (leb v c)) [
      | inl old ↦
          rw (apply_pending, version, old)
            (OnOk-weaken (Applied fs c) (Applied (f ∷ fs) c) (apply_pending execute int fs c s)
              (λ a u k. (k.0, k.1, ((v, version, ground (arith, old, k.1)), k.2)))
              (apply_pending-Applied fs c s current))
      | inr new ↦
          let above : c < v = ground (arith, new) in
          rw (apply_pending, version, new)
            (OnOk-bind {B = ℕ} (λ _ u. Current v u) (Applied (f ∷ fs) c)
              (apply_migration execute int f v) (λ _. apply_pending execute int fs v) s
              (apply_migration-Current f v c s current above)
              (λ _ u k.
                OnOk-weaken (Applied fs v) (Applied (f ∷ fs) c) (apply_pending execute int fs v u)
                  (λ a w j. (j.0, omega (arith, above, j.1), ((v, version, j.1), j.2)))
                  (apply_pending-Applied fs v u k)))
    ]
  ]

  -- The scripts of the base schema leave the table of versions alone.
  abbrev NoVersion : {A : Type 0} → A → Schema D → Type 0
  NoVersion _ u = u.versions ≡ []

  execute-NoVersion :
      (script : Script) (s : Schema D) → s.versions ≡ [] → OnOk NoVersion (execute script s)
  execute-NoVersion script s empty =
      OnOk-weaken (λ _ u. u.versions ≡ s.versions) NoVersion (execute script s)
        (λ _ u same. rw same empty) (leaves script s)

  execute_files-NoVersion :
      (fs : List (SchemaFile Script)) (s : Schema D)
      → s.versions ≡ []
      → OnOk NoVersion (execute_files execute int fs s)
  unfolding execute_files
  execute_files-NoVersion [] s empty = empty
  execute_files-NoVersion (f ∷ fs) s empty =
      OnOk-bind {B = Unit {0}} NoVersion NoVersion (execute f.script)
        (λ _. execute_files execute int fs) s (execute-NoVersion f.script s empty)
        (λ _ u k. execute_files-NoVersion fs u k)

  execute_phase-NoVersion :
      (o : Option (List (SchemaFile Script))) (s : Schema D)
      → s.versions ≡ []
      → OnOk NoVersion (execute_phase execute int o s)
  execute_phase-NoVersion none s empty = empty
  execute_phase-NoVersion (some files) s empty =
      execute_files-NoVersion (order_by (λ f g. parts_le f.parts g.parts) files) s empty

  run_phases-NoVersion :
      (files : Files Script) (ps : List String) (s : Schema D)
      → s.versions ≡ []
      → OnOk NoVersion (run_phases execute int files ps s)
  unfolding run_phases
  run_phases-NoVersion files [] s empty = empty
  run_phases-NoVersion files (p ∷ ps) s empty =
      OnOk-bind {B = Unit {0}} NoVersion NoVersion (execute_phase execute int (files.phase p))
        (λ _. run_phases execute int files ps) s (execute_phase-NoVersion (files.phase p) s empty)
        (λ _ u k. run_phases-NoVersion files ps u k)

  first_version :
      (s : Schema D) → s.versions ≡ [] → OnOk (λ _ u. Current 0 u) (insert_version execute int 0 s)
  unfolding insert_version exists_row max_version
  first_version s empty = rw (empty, OnOk) refl

  no_versions : (vs : List ℕ) → max_version vs ≡ none → vs ≡ []
  unfolding max_version
  no_versions [] h = refl
  no_versions (v ∷ vs) h = cc

  base_version-Current :
      (files : Files Script) (o : Option ℕ) (s : Schema D)
      → max_version s.versions ≡ o
      → OnOk (λ c u. Current c u) (base_version execute int files o s)
  unfolding base_version run_base_schema
  base_version-Current files (some c) s known = known
  base_version-Current files none s known =
      let body = run_base_schema execute int files >> insert_version execute int 0 in
      OnOk-bind {A = Unit {0}} {B = ℕ} (λ _ u. Current 0 u) (λ c u. Current c u) (transaction body)
        (λ _. pure 0) s
        (OnOk-transaction (λ _ u. Current 0 u) body s
          (OnOk-bind {B = Unit {0}} NoVersion (λ _ u. Current 0 u)
            (run_base_schema execute int files) (λ _. insert_version execute int 0) s
            (run_phases-NoVersion files schema_phases s (no_versions s.versions known))
            (λ _ u k. first_version u k)))
        (λ _ u k. k)

  abbrev pending : Files Script → List (MigrationFile Script)
  pending files = order_by (λ f g. text_le (file_name f) (file_name g)) files.migrations

  -- For scripts that leave the rows of schema_version as they are, whatever else they do: after a run that
  -- succeeded, another run with the same files succeeds with the same current version and changes nothing,
  -- in whatever order the files are listed.
  pub run_migrations_twice :
      (files : Files Script) (s : Schema D) (c : ℕ)
      → (run_migrations execute int files s).0 ≡ ok c
      → run_migrations execute int files (run_migrations execute int files s).1
        ≡ (ok c, (run_migrations execute int files s).1)
  unfolding run_migrations base_version
  run_migrations_twice files s c done =
      let base = base_version execute int files (max_version s.versions) in
      let u = (run_migrations execute int files s).1 in
      let Q : ℕ → Schema D → Type 0 = λ a v. Current a v × All (Covered a) (pending files) in
      let after : Q c u = OnOk-result Q (run_migrations execute int files s) done (
        OnOk-bind {B = ℕ} (λ b v. Current b v) Q base (apply_pending execute int (pending files)) s
          (base_version-Current files (max_version s.versions) s refl)
          (λ b v k.
            OnOk-weaken (Applied (pending files) b) Q
              (apply_pending execute int (pending files) b v) (λ a w j. (j.0, j.2))
              (apply_pending-Applied (pending files) b v k))) in
      rw (run_migrations, after.0) (All-skipped (pending files) c u after.1)
