-- ===== src/Registry/Tests.antt =====
-- The registration of Go migrations, at a few of them.
use pressly_goose_patches.Base.{◌≡◌, refl, ◌⊎◌, inl, inr, true, [], ◌∷◌, none, some, arith}
use pressly_goose_patches.Int.{pos, eqb_ℤ}
use pressly_goose_patches.VersionMap.{VersionMap, lookup, insert}
use pressly_goose_patches.Text.{Str, codes, has_suffix, has_prefix}
use pressly_goose_patches.Outcome.{ok, err, deadlock_detected}
use pressly_goose_patches.Provider.{GoFunc, mode_unset, returned}
use pressly_goose_patches.Provider.Run.{is_some, prepare_migration}
use pressly_goose_patches.Provider.Memory.{Db, provider_of, state_of}
use pressly_goose_patches.Registry.{
  Registration, new_go_migration, check_go_migration, set_global_migrations, register,
  version_or_zero, add_named, named, add_named_migration_context,
}
use pressly_goose_patches.Collect.{numeric_component, numeric_prefix, before_separator}
use pressly_goose_patches.Registry.Checked.{
  IsRegistry, new_go_migration-checks, set_global_migrations-IsRegistry, checked_migration-prepares,
}

abbrev base : Str → Str
base s = s

abbrev on_db : GoFunc Db
on_db = record { run_tx = none; run_db = some (λ w. (returned none, w)); mode = mode_unset }

abbrev fifth : Registration Db
fifth = new_go_migration (pos 5) (some on_db) none

new_go_migration-checks_example : check_go_migration base fifth ≡ none
new_go_migration-checks_example =
    new_go_migration-checks base (pos 5) (some on_db) none (ground arith)
      (inr (inr (λ w. (returned none, w), refl, refl, inl refl))) tt

set_global_migrations-IsRegistry_example :
    IsRegistry base (set_global_migrations base (fifth ∷ fifth ∷ []) []).1
set_global_migrations-IsRegistry_example =
    set_global_migrations-IsRegistry base (fifth ∷ fifth ∷ []) [] tt

checked_migration-prepares_example :
    (prepare_migration (provider_of []) fifth.migration true (state_of []) ≡ (ok tt, state_of []))
    ⊎ (prepare_migration (provider_of []) fifth.migration true (state_of [])
        ≡ (err deadlock_detected, state_of []))
checked_migration-prepares_example =
    checked_migration-prepares (provider_of []) base fifth true (state_of [])
      new_go_migration-checks_example

-- A file name without a version is registered under the version 0.
abbrev misnamed : VersionMap (Registration Db)
misnamed = (add_named_migration_context base (codes "users.go") none none []).1

misnamed_version : is_some (lookup (pos 0) misnamed) ≡ true
unfolding add_named_migration_context register version_or_zero add_named named numeric_component
    numeric_prefix before_separator has_suffix has_prefix lookup insert eqb_ℤ
misnamed_version = refl
