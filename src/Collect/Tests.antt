-- ===== src/Collect/Tests.antt =====
-- Runs of provider_collect.go, and its theorems at concrete files.
use pressly_goose_patches.Base.{
  ◌≡◌, refl, ℕ, false, List, [], ◌∷◌, Option, none, some, if◌then◌else◌,
}
use pressly_goose_patches.Int.{ℤ, pos, ltb_ℤ, eqb_ℤ}
use pressly_goose_patches.VersionMap.{lookup, insert}
use pressly_goose_patches.Text.{Str, codes, has_suffix, has_prefix}
use pressly_goose_patches.Outcome.{type_go, type_sql, Source}
use pressly_goose_patches.Provider.{Migration, GoFunc, mode_unset}
use pressly_goose_patches.Collect.{
  ok, FileSources, Excludes, before_separator, digits, parse_int, checked_version, numeric_prefix,
  numeric_component, add_source, add_unique, add_version, collect_file, collect_files,
  collect_pattern, collect_filesystem_sources,
}
use pressly_goose_patches.Collect.Merge.{new_sql_migration, merge, add_global, provider_migrations}
use pressly_goose_patches.Collect.Sources.{ArePositive, collect-ArePositive}

abbrev glob_files : Str → Option (List Str)
glob_files pattern =
    if has_suffix pattern (codes ".sql")
    then some (codes "10_b.sql" ∷ codes "2_a.sql" ∷ codes "x.sql" ∷ [])
    else some (codes "3_c.go" ∷ codes "3_c_test.go" ∷ [])

abbrev no_excludes : Excludes
no_excludes = record { names = λ _. false; versions = λ _. false }

abbrev source_at : ℤ → Str → Source
source_at v path = record { type = type_sql; path = path; version = v }

abbrev found : FileSources
found = record {
  sql_sources = source_at (pos 10) (codes "10_b.sql") ∷ source_at (pos 2) (codes "2_a.sql") ∷ [];
  go_sources = record { type = type_go; path = codes "3_c.go"; version = pos 3 } ∷ [];
}

collected : collect_filesystem_sources glob_files false no_excludes ≡ ok found
unfolding collect_filesystem_sources collect_pattern collect_files collect_file add_version
    add_unique add_source numeric_component numeric_prefix checked_version parse_int digits
    before_separator has_suffix has_prefix lookup insert ltb_ℤ eqb_ℤ
collected = refl

abbrev no_func : GoFunc ℕ
no_func = record { run_tx = none; run_db = none; mode = mode_unset }

abbrev go_three : Str → Migration ℕ
go_three path = record {
  type = type_go;
  version = pos 3;
  source = path;
  go_up = no_func;
  go_down = no_func;
}

abbrev sql_at : ℤ → Str → Migration ℕ
sql_at v path = record {
  type = type_sql;
  version = v;
  source = path;
  go_up = no_func;
  go_down = no_func;
}

abbrev in_order : List (Migration ℕ)
in_order =
    sql_at (pos 2) (codes "2_a.sql")
    ∷ go_three (codes "3_c.go")
    ∷ sql_at (pos 10) (codes "10_b.sql")
    ∷ []

-- Without a Go migration the order stays that of the file names.
sql_only :
    provider_migrations {W = ℕ}
      (λ p. if has_suffix p (codes ".sql") then glob_files p else some [])
      no_excludes
      []
      false
      []
    ≡ ok (sql_at (pos 10) (codes "10_b.sql") ∷ sql_at (pos 2) (codes "2_a.sql") ∷ [])
unfolding provider_migrations add_global merge new_sql_migration collect_filesystem_sources
    collect_pattern collect_files collect_file add_version add_unique add_source numeric_component
    numeric_prefix checked_version parse_int digits before_separator has_suffix has_prefix lookup
    insert ltb_ℤ eqb_ℤ
sql_only = refl

collect-ArePositive_example : ArePositive found
collect-ArePositive_example = collect-ArePositive false no_excludes glob_files found collected
