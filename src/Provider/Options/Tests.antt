-- ===== src/Provider/Options/Tests.antt =====
-- A provider from its options, over the database in memory.
use pressly_goose_patches.Base.{refl, true, false, List, [], ◌∷◌, Option, none, some}
use pressly_goose_patches.Int.{pos, ltb_ℤ}
use pressly_goose_patches.Sort.{sort_by, insert_by}
use pressly_goose_patches.VersionMap.{lookup, insert}
use pressly_goose_patches.Text.{Str, codes}
use pressly_goose_patches.Outcome.{Result, ok}
use pressly_goose_patches.Provider.{Locker, Provider, Migration}
use pressly_goose_patches.Provider.Session.{unlock_and_close, acquire_locks, acquire, acquired}
use pressly_goose_patches.Provider.Memory.{Db, driver, store, calm, state_of}
use pressly_goose_patches.Provider.Options.{
  NamedStore, ProviderOption, with_locker, with_go_migrations, apply_all, apply, new_provider,
  pick_store, build_provider, set_locker, add_go_migrations, mapped, table_name_or_default,
  provided,
}
use pressly_goose_patches.Provider.Options.Exclusive.{IsExclusive, Took, new_provider-Took}
use pressly_goose_patches.Registry.{
  new_go_migration, check_go_migration, check_source, check_go_func, check_legacy, set_func,
  set_legacy, is_go, or_else, is_disabled,
}
use pressly_goose_patches.Collect.{collect_filesystem_sources, collect_pattern, collect_files}
use pressly_goose_patches.Collect.Merge.{
  provider_migrations, merge, merge_go, fill_paths, sorted, add_registered, lookup_of, add_global,
}

abbrev base : Str → Str
base s = s

abbrev calm_locker : Locker Db
calm_locker = record { lock = calm; unlock = calm }

abbrev new_store : Str → Str → Result (NamedStore Db)
new_store dialect name = ok (record { tablename = name; store = store })

abbrev glob : Str → Option (List Str)
glob pattern = some []

abbrev locked_options : List (ProviderOption Db)
locked_options =
    with_locker (some calm_locker)
    ∷ with_go_migrations (new_go_migration (pos 4) none none ∷ [])
    ∷ []

abbrev fourth : Migration Db
fourth = (new_go_migration (pos 4) none none).migration

abbrev locked_provider : Provider Db
locked_provider = record {
  driver = driver;
  store = store;
  cfg = record {
    lock_enabled = true;
    session_locker = none;
    locker = some calm_locker;
    disable_versioning = false;
    allow_missing = false;
    isolate_ddl = false;
  };
  migrations = fourth ∷ [];
}

new_provider-Took_example :
    IsExclusive true none (some calm_locker)
    × Took locked_provider true
        (unlock_and_close locked_provider calm_locker)
        (state_of [])
        (state_of [])
unfolding new_provider apply_all apply set_locker mapped add_go_migrations check_go_migration
    check_source check_go_func check_legacy set_func set_legacy is_go or_else is_disabled pick_store
    table_name_or_default build_provider provided provider_migrations collect_filesystem_sources
    collect_pattern collect_files merge merge_go fill_paths sorted add_registered lookup_of
    add_global lookup insert new_go_migration acquire_locks acquire acquired ltb_ℤ sort_by insert_by
new_provider-Took_example =
    new_provider-Took base new_store driver glob [] (codes "postgres") locked_options
      locked_provider true (state_of []) (state_of [])
      (unlock_and_close locked_provider calm_locker) refl refl
