-- ===== src/Collect/Merge.antt =====
-- `merge` of provider_collect.go and `newProvider` of provider.go, up to the provider's migrations.
use pressly_goose_patches.Base.{
  Bool, false, ◌&&◌, List, [], ◌∷◌, ◌++◌, Option, none, some, if◌then◌else◌, is_nil, map,
}
use pressly_goose_patches.Sort.{sort_by}
use pressly_goose_patches.VersionMap.{VersionMap, lookup, insert}
use pressly_goose_patches.Text.{Str}
use pressly_goose_patches.Outcome.{Source}
use pressly_goose_patches.Provider.{Migration, GoFunc, mode_unset}
use pressly_goose_patches.Collect.{
  unregistered, duplicate_version, conflicts_with_global, no_migrations, Result, ok, err,
  FileSources, Excludes, collect_filesystem_sources,
}

-- Go migrations by version.
abbrev pub Registered : Type 0 → Type 0
Registered W = VersionMap (Migration W)

module _ {W : Type 0} where
  abbrev no_func : GoFunc W
  no_func = record { run_tx = none; run_db = none; mode = mode_unset }

  unfoldable pub new_sql_migration : Source → Migration W
  new_sql_migration source = record {
    type = source.type;
    version = source.version;
    source = source.path;
    go_up = no_func;
    go_down = no_func;
  }

  -- The loop over the Go files: the paths of those not registered, and the registered migrations
  -- with their paths.
  unfoldable pub fill_paths : List Source → Registered W → List Str × Registered W
  fill_paths [] registered = ([], registered)
  fill_paths (s ∷ ss) registered = elim (lookup s.version registered) [
    | none ↦ let (missing, filled) = fill_paths ss registered in (s.path ∷ missing, filled)
    | some m ↦ fill_paths ss (insert s.version (record m { source = s.path }) registered)
  ]

  unfoldable pub lookup_of : List (Migration W) → Registered W → Registered W
  lookup_of [] found = found
  lookup_of (m ∷ ms) found = lookup_of ms (insert m.version m found)

  -- The loop over `registered`.
  unfoldable pub add_registered :
      Registered W → List (Migration W) → Registered W → Result (List (Migration W))
  add_registered [] migrations found = ok migrations
  add_registered ((version, r) ∷ rs) migrations found = elim (lookup version found) [
    | some existing ↦ err (duplicate_version version existing.source r.source)
    | none ↦ add_registered rs (migrations ++ r ∷ []) (insert version r found)
  ]

  unfoldable pub sorted : Result (List (Migration W)) → Result (List (Migration W))
  sorted (err e) = err e
  sorted (ok ms) = ok (sort_by (λ m. m.version) ms)

  unfoldable pub merge_go :
      List (Migration W) → List Str × Registered W → Result (List (Migration W))
  unfolding sorted
  merge_go migrations (p ∷ ps, filled) = err (unregistered (p ∷ ps))
  merge_go migrations ([], filled) =
      sorted (add_registered filled migrations (lookup_of migrations []))

  unfoldable pub merge : FileSources → Registered W → Result (List (Migration W))
  unfolding merge_go
  merge sources registered =
      let migrations = map new_sql_migration sources.sql_sources in
      if is_nil sources.go_sources && is_nil registered
      then ok migrations
      else merge_go migrations (fill_paths sources.go_sources registered)

  -- The global registrations, added to those of the provider.
  unfoldable pub add_global : Registered W → Registered W → Result (Registered W)
  add_global [] registered = ok registered
  add_global ((version, m) ∷ ms) registered = elim (lookup version registered) [
    | some _ ↦ err (conflicts_with_global version)
    | none ↦ add_global ms (insert version m registered)
  ]

  not_empty : Result (List (Migration W)) → Result (List (Migration W))
  not_empty (err e) = err e
  not_empty (ok []) = err no_migrations
  not_empty (ok (m ∷ ms)) = ok (m ∷ ms)

  -- The migrations of `newProvider`.
  unfoldable pub provider_migrations :
      (Str → Option (List Str))
      → Excludes
      → Registered W
      → Bool
      → Registered W
      → Result (List (Migration W))
  unfolding not_empty
  provider_migrations glob excludes registered disable_global_registry global =
      elim (collect_filesystem_sources glob false excludes) [
        | err e ↦ err e
        | ok sources ↦
            elim (if disable_global_registry then ok registered else add_global global registered) [
              | err e ↦ err e
              | ok all ↦ not_empty (merge sources all)
            ]
      ]
