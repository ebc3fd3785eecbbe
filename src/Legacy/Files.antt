-- ===== src/Legacy/Files.antt =====
-- migrate.go: the migrations of a directory, and the navigation among them.
use pressly_goose_patches.Base.{
  Bool, true, false, not, ◌&&◌, ◌||◌, List, [], ◌∷◌, ◌++◌, Option, none, some, if◌then◌else◌,
  is_nil, reverse,
}
use pressly_goose_patches.Int.{ℤ, ltb_ℤ, leb_ℤ, eqb_ℤ}
use pressly_goose_patches.Sort.{sort_by}
use pressly_goose_patches.VersionMap.{VersionMap, lookup}
use pressly_goose_patches.Text.{Str, codes, has_suffix}
use pressly_goose_patches.Outcome.{Error, external, panicked, no_next_version, Result, ok, err}
use pressly_goose_patches.Registry.{no_legacy}
use pressly_goose_patches.Collect
use pressly_goose_patches.Collect.{numeric_component}
use pressly_goose_patches.Legacy.{LegacyMigration}

abbrev pub no_current_version : Error
no_current_version = external (codes "no current version found")

abbrev pub no_migration_files : Error
no_migration_files = external (codes "no migration files found")

abbrev pub bad_file : Error
bad_file = external (codes "could not parse migration file")

unfoldable pub version_filter : ℤ → ℤ → ℤ → Bool
version_filter v current target =
    if ltb_ℤ current target
    then ltb_ℤ current v && leb_ℤ v target
    else if ltb_ℤ target current
    then leb_ℤ v current && ltb_ℤ target v
    else false

-- The loop over the Go files: the files in range, and their versions.
go_source : ℤ → ℤ → Str → Collect.Result ℤ → List (Str × ℤ) → List (Str × ℤ)
go_source current target file (Collect.err e) rest = rest
go_source current target file (Collect.ok v) rest =
    if has_suffix file (codes "_test.go")
    then rest
    else if version_filter v current target
    then (file, v) ∷ rest
    else rest

unfoldable pub go_sources : ℤ → ℤ → List Str → List (Str × ℤ)
unfolding go_source version_filter
go_sources current target [] = []
go_sources current target (f ∷ fs) =
    go_source current target f (numeric_component f) (go_sources current target fs)

-- The sanity check of the registered migrations.
has_component : Collect.Result ℤ → Bool
has_component (Collect.ok v) = true
has_component (Collect.err e) = false

module _ {W : Type 0} where
  -- `Migrations.Current`, `Next`, `Previous` and `Last`
  unfoldable pub current_of : ℤ → List (LegacyMigration W) → Result (LegacyMigration W)
  current_of v [] = err no_current_version
  current_of v (m ∷ ms) = let rest = current_of v ms in if eqb_ℤ m.version v then ok m else rest

  unfoldable pub next_of : ℤ → List (LegacyMigration W) → Result (LegacyMigration W)
  next_of v [] = err no_next_version
  next_of v (m ∷ ms) = let rest = next_of v ms in if ltb_ℤ v m.version then ok m else rest

  unfoldable pub first_below : ℤ → List (LegacyMigration W) → Result (LegacyMigration W)
  first_below v [] = err no_next_version
  first_below v (m ∷ ms) = let rest = first_below v ms in if ltb_ℤ m.version v then ok m else rest

  unfoldable pub previous_of : ℤ → List (LegacyMigration W) → Result (LegacyMigration W)
  unfolding first_below
  previous_of v ms = first_below v (reverse ms)

  unfoldable pub last_of : List (LegacyMigration W) → Result (LegacyMigration W)
  last_of [] = err no_next_version
  last_of (m ∷ []) = ok m
  last_of (m ∷ n ∷ ms) = last_of (n ∷ ms)

  abbrev pub file_migration : Str → ℤ → LegacyMigration W
  file_migration file v = record {
    version = v;
    source = file;
    registered = false;
    use_tx = false;
    no_versioning = false;
    up = no_legacy;
    down = no_legacy;
  }

  -- The loop over the SQL files.
  sql_file :
      ℤ
      → ℤ
      → Str
      → Collect.Result ℤ
      → Result (List (LegacyMigration W))
      → Result (List (LegacyMigration W))
  sql_file current target file (Collect.err e) rest = err bad_file
  sql_file current target file (Collect.ok v) (err e) = err e
  sql_file current target file (Collect.ok v) (ok ms) =
      ok (if version_filter v current target then file_migration file v ∷ ms else ms)

  unfoldable pub sql_files : ℤ → ℤ → List Str → Result (List (LegacyMigration W))
  unfolding sql_file version_filter
  sql_files current target [] = ok []
  sql_files current target (f ∷ fs) =
      sql_file current target f (numeric_component f) (sql_files current target fs)

  registered_or_file : VersionMap (LegacyMigration W) → Str × ℤ → LegacyMigration W
  registered_or_file registered (file, v) = elim (lookup v registered) [
    | some m ↦ m
    | none ↦ file_migration file v
  ]

  unfoldable pub from_sources :
      VersionMap (LegacyMigration W) → List (Str × ℤ) → List (LegacyMigration W)
  unfolding registered_or_file
  from_sources registered [] = []
  from_sources registered (s ∷ ss) = registered_or_file registered s ∷ from_sources registered ss

  -- The registered migrations in range, by the numbers in their sources.
  registered_one :
      ℤ
      → ℤ
      → LegacyMigration W
      → Collect.Result ℤ
      → Result (List (LegacyMigration W))
      → Result (List (LegacyMigration W))
  registered_one current target m (Collect.err e) rest = err bad_file
  registered_one current target m (Collect.ok v) (err e) = err e
  registered_one current target m (Collect.ok v) (ok ms) =
      ok (if version_filter v current target then m ∷ ms else ms)

  unfoldable pub all_registered :
      ℤ → ℤ → VersionMap (LegacyMigration W) → Result (List (LegacyMigration W))
  unfolding registered_one version_filter
  all_registered current target [] = ok []
  all_registered current target ((v, m) ∷ ms) =
      registered_one current target m (numeric_component m.source)
        (all_registered current target ms)

  unfoldable pub are_named : VersionMap (LegacyMigration W) → Bool
  unfolding has_component
  are_named [] = true
  are_named ((v, m) ∷ ms) = has_component (numeric_component m.source) && are_named ms

  go_migrations_of :
      ℤ → ℤ → VersionMap (LegacyMigration W) → List (Str × ℤ) → Result (List (LegacyMigration W))
  go_migrations_of current target registered [] = all_registered current target registered
  go_migrations_of current target registered (s ∷ ss) = ok (from_sources registered (s ∷ ss))

  globbed :
      VersionMap (LegacyMigration W) → ℤ → ℤ → Option (List Str) → Result (List (LegacyMigration W))
  unfolding go_migrations_of go_sources
  globbed registered current target none = err bad_file
  globbed registered current target (some files) =
      if is_nil files && is_nil registered
      then ok []
      else go_migrations_of current target registered (go_sources current target files)

  unfoldable pub collect_go_migrations :
      Option (List Str) → VersionMap (LegacyMigration W) → ℤ → ℤ → Result (List (LegacyMigration W))
  unfolding are_named globbed
  collect_go_migrations files registered current target =
      if not (are_named registered) then err bad_file else globbed registered current target files

  -- `sortAndConnectMigrations`: `Less` panics on two migrations of one version, which a sort compares.
  -- The links to the next and the previous version are left out.
  unfoldable pub has_twins : List (LegacyMigration W) → Bool
  has_twins [] = false
  has_twins (m ∷ []) = false
  has_twins (m ∷ n ∷ ms) = eqb_ℤ m.version n.version || has_twins (n ∷ ms)

  unfoldable pub sort_migrations : List (LegacyMigration W) → Result (List (LegacyMigration W))
  unfolding has_twins
  sort_migrations ms =
      let sorted = sort_by (λ m. m.version) ms in
      if has_twins sorted then err panicked else ok sorted

  joined_files :
      Result (List (LegacyMigration W))
      → Result (List (LegacyMigration W))
      → Result (List (LegacyMigration W))
  unfolding sort_migrations
  joined_files (err e) go = err e
  joined_files (ok sql) (err e) = err e
  joined_files (ok sql) (ok go) =
      if is_nil (sql ++ go) then err no_migration_files else sort_migrations (sql ++ go)

  sql_globbed : ℤ → ℤ → Option (List Str) → Result (List (LegacyMigration W))
  unfolding sql_files
  sql_globbed current target none = err bad_file
  sql_globbed current target (some files) = sql_files current target files

  -- `collectMigrationsFS`. `stat` is the error of `fs.Stat` on the directory, and `glob` gives the names
  -- that match a pattern in it, or none if it fails.
  unfoldable pub collect_migrations_fs :
      Option Error
      → (Str → Option (List Str))
      → ℤ
      → ℤ
      → VersionMap (LegacyMigration W)
      → Result (List (LegacyMigration W))
  unfolding joined_files sql_globbed collect_go_migrations
  collect_migrations_fs stat glob current target registered = elim stat [
    | some e ↦ err e
    | none ↦
        joined_files (sql_globbed current target (glob (codes "*.sql")))
          (collect_go_migrations (glob (codes "*.go")) registered current target)
  ]
