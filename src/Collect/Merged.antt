-- ===== src/Collect/Merged.antt =====
-- `merge` of provider_collect.go: which migrations come out of it.
use pressly_goose_patches.Base.{◌≡◌, true, false, List, ◌++◌, All, map}
use mathlib.Core.List.{Perm}
use mathlib.Core.List.Perm
use pressly_goose_patches.Int.{ℤ, eqb_ℤ}
use pressly_goose_patches.Sort.{IsSorted}
use pressly_goose_patches.VersionMap.{has}
use pressly_goose_patches.Provider.{Migration}
use pressly_goose_patches.Collect.{FileSources}
use pressly_goose_patches.Collect.Merge.{new_sql_migration, Registered, fill_paths}

module _ {W : Type 0} where
  -- The SQL migrations of the files and the registered Go migrations with the paths of their files,
  -- every one of them and nothing else, in ascending order. Every Go file has its registration, and
  -- no registered version is also that of a SQL file.
  pub record IsMerge (sources : FileSources) (registered : Registered W) (out : List (Migration W))
      : Type 0 where
    pub all_there : Perm out (
        map new_sql_migration sources.sql_sources
        ++ map (λ x. x.1) (fill_paths sources.go_sources registered).1)
    pub in_order : IsSorted (λ m. m.version) out
    pub no_missing : All (λ s. has s.version registered ≡ true) sources.go_sources
    pub no_clash :
        All
          (λ x. All (λ s. eqb_ℤ s.version x.0 ≡ false) sources.sql_sources)
          (fill_paths sources.go_sources registered).1

  -- No migration of a version stands among the first ones.
  abbrev IsFresh : ℤ → List (Migration W) → Type 0
  IsFresh k ms = All (λ m. eqb_ℤ m.version k ≡ false) ms
