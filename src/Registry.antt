-- ===== src/Registry.antt =====
-- globals.go, register.go and `NewGoMigration` of migration.go: Go migrations that are constructed,
-- checked, and registered by version. `filepath.Base` is a parameter.
pub mod Checked
mod Tests
use pressly_goose_patches.Base.{
  ◌≡◌, refl, Bool, true, false, not, ◌&&◌, ◌||◌, List, [], ◌∷◌, Option, none, some, if◌then◌else◌,
  is_nil,
}
use pressly_goose_patches.Int.{ℤ, pos, ltb_ℤ, eqb_ℤ}
use pressly_goose_patches.VersionMap.{VersionMap, lookup, insert}
use pressly_goose_patches.Text.{Str, codes, has_suffix}
use pressly_goose_patches.Outcome.{MigrationType, type_go, type_sql, type_other}
use pressly_goose_patches.Provider.{
  TransactionMode, mode_unset, transaction_enabled, transaction_disabled, mode_other, GoAction,
  GoFunc, Migration,
}
use pressly_goose_patches.Provider.Run.{is_some, is_mode_unset, is_enabled}
use pressly_goose_patches.Collect
use pressly_goose_patches.Collect.{numeric_component}

pub data RegistryError : Type 0 where
  already_registered : ℤ → RegistryError
  not_constructed not_registered wrong_type wrong_version wrong_source_extension : RegistryError
  invalid_source wrong_source_version both_functions invalid_mode mode_mismatch : RegistryError

-- The legacy functions of one direction: with and without a context, in a transaction and not.
pub record Legacy (W : Type 0) : Type 0 where
  pub fn_context : Option (GoAction W)
  pub fn_no_tx_context : Option (GoAction W)
  pub fn : Option (GoAction W)
  pub fn_no_tx : Option (GoAction W)

-- The fields of a Go migration that its registration reads.
pub record Registration (W : Type 0) : Type 0 where
  pub migration : Migration W
  pub construct : Bool
  pub registered : Bool
  pub use_tx : Bool
  pub up : Legacy W
  pub down : Legacy W

unfoldable pub is_disabled : TransactionMode → Bool
is_disabled transaction_disabled = true
is_disabled _ = false

-- The mode that `updateMode` infers where none is set.
unfoldable pub inferred : Bool → Bool → TransactionMode
inferred true true = mode_unset
inferred false true = transaction_disabled
inferred _ false = transaction_enabled

unfoldable pub is_go : MigrationType → Bool
is_go type_go = true
is_go _ = false

-- The first error of two checks.
unfoldable pub or_else : Option RegistryError → Option RegistryError → Option RegistryError
or_else none next = next
or_else (some e) next = some e

unfoldable pub check_component : ℤ → Collect.Result ℤ → Option RegistryError
check_component version (Collect.err e) = some invalid_source
check_component version (Collect.ok v) = if eqb_ℤ v version then none else some wrong_source_version

-- The value of `NumericComponent` without its error: 0 beside an error.
unfoldable pub version_or_zero : Collect.Result ℤ → ℤ
version_or_zero (Collect.ok v) = v
version_or_zero (Collect.err e) = pos 0

module _ {W : Type 0} where
  unfoldable pub update_mode : GoFunc W → GoFunc W
  unfolding is_mode_unset inferred
  update_mode f =
      if is_mode_unset f.mode
      then record f { mode = inferred (is_some f.run_tx) (is_some f.run_db) }
      else f

  abbrev pub no_legacy : Legacy W
  no_legacy = record { fn_context = none; fn_no_tx_context = none; fn = none; fn_no_tx = none }

  abbrev pub legacy_of : GoFunc W → Legacy W
  legacy_of f = record {
    fn_context = f.run_tx;
    fn_no_tx_context = f.run_db;
    fn = f.run_tx;
    fn_no_tx = f.run_db;
  }

  -- The function of a direction, and its legacy functions.
  unfoldable pub set_func : Option (GoFunc W) → GoFunc W
  unfolding update_mode
  set_func none = record { run_tx = none; run_db = none; mode = transaction_enabled }
  set_func (some f) = update_mode f

  unfoldable pub set_legacy : Option (GoFunc W) → Legacy W
  set_legacy none = no_legacy
  set_legacy (some f) = legacy_of f

  unfoldable pub uses_tx : Option (GoFunc W) → Bool
  uses_tx none = false
  uses_tx (some f) = is_some f.run_tx

  unfoldable pub new_go_migration : ℤ → Option (GoFunc W) → Option (GoFunc W) → Registration W
  unfolding set_func set_legacy uses_tx
  new_go_migration version up down = record {
    migration = record {
      type = type_go;
      version = version;
      source = [];
      go_up = set_func up;
      go_down = set_func down;
    };
    construct = true;
    registered = true;
    use_tx = uses_tx up || uses_tx down;
    up = set_legacy up;
    down = set_legacy down;
  }

  -- `checkGoFunc`; none is no error.
  unfoldable pub check_go_func : GoFunc W → Option RegistryError
  unfolding is_enabled is_disabled
  check_go_func f =
      if is_some f.run_tx && is_some f.run_db
      then some both_functions
      else if not (is_enabled f.mode) && not (is_disabled f.mode)
      then some invalid_mode
      else if is_some f.run_db && not (is_disabled f.mode)
      then some mode_mismatch
      else if is_some f.run_tx && not (is_enabled f.mode)
      then some mode_mismatch
      else none

  unfoldable pub check_legacy : Legacy W → Option RegistryError
  check_legacy g =
      if is_some g.fn_context && is_some g.fn_no_tx_context
      then some both_functions
      else if is_some g.fn && is_some g.fn_no_tx
      then some both_functions
      else none

  unfoldable pub stop_at :
      Option RegistryError
      → VersionMap (Registration W)
      → Option RegistryError × VersionMap (Registration W)
      → Option RegistryError × VersionMap (Registration W)
  stop_at (some e) next rest = (some e, next)
  stop_at none next rest = rest

  -- One round of `SetGlobalMigrations`: the entry of the version, and the check.
  unfoldable pub add_checked :
      Registration W
      → Option (Registration W)
      → Option RegistryError
      → VersionMap (Registration W)
      → Option RegistryError × VersionMap (Registration W)
  add_checked r (some _) e registry = (some (already_registered r.migration.version), registry)
  add_checked r none (some e) registry = (some e, registry)
  add_checked r none none registry = (none, insert r.migration.version r registry)

  unfoldable pub add_named :
      Registration W
      → Option (Registration W)
      → VersionMap (Registration W)
      → Option RegistryError × VersionMap (Registration W)
  add_named r (some _) registry = (some (already_registered r.migration.version), registry)
  add_named r none registry = (none, insert r.migration.version r registry)

  unfoldable pub named : Registration W → Str → Bool → Registration W
  named r filename use_tx = record r {
    use_tx = use_tx;
    migration = record r.migration { source = filename };
  }

  module _ (base : Str → Str) where
    unfoldable pub check_source : Migration W → Option RegistryError
    unfolding check_component
    check_source m =
        if is_nil m.source
        then none
        else if not (has_suffix (base m.source) (codes ".go"))
        then some wrong_source_extension
        else check_component m.version (numeric_component (base m.source))

    unfoldable pub check_go_migration : Registration W → Option RegistryError
    unfolding is_go or_else check_source check_go_func check_legacy
    check_go_migration r =
        if not r.construct
        then some not_constructed
        else if not r.registered
        then some not_registered
        else if not (is_go r.migration.type)
        then some wrong_type
        else if ltb_ℤ r.migration.version (pos 1)
        then some wrong_version
        else or_else (check_source r.migration) (
            or_else (check_go_func r.migration.go_up) (
              or_else (check_go_func r.migration.go_down)
                (or_else (check_legacy r.up) (check_legacy r.down))))

    unfoldable pub set_one :
        Registration W
        → VersionMap (Registration W)
        → Option RegistryError × VersionMap (Registration W)
    unfolding add_checked check_go_migration
    set_one r registry =
        add_checked r (lookup r.migration.version registry) (check_go_migration r) registry

    -- `SetGlobalMigrations`: it keeps what it registered before an error.
    unfoldable pub set_global_migrations :
        List (Registration W)
        → VersionMap (Registration W)
        → Option RegistryError × VersionMap (Registration W)
    unfolding set_one stop_at
    set_global_migrations [] registry = (none, registry)
    set_global_migrations (r ∷ rs) registry =
        let (e, next) = set_one r registry in stop_at e next (set_global_migrations rs next)

    unfoldable pub register :
        Str
        → Bool
        → GoFunc W
        → GoFunc W
        → VersionMap (Registration W)
        → Option RegistryError × VersionMap (Registration W)
    unfolding version_or_zero new_go_migration add_named named
    register filename use_tx up down registry =
        let v = version_or_zero (numeric_component (base filename)) in
        add_named (named (new_go_migration v (some up) (some down)) filename use_tx)
          (lookup v registry) registry

    -- `AddNamedMigrationContext` and `AddNamedMigrationNoTxContext`, which panic on the error. The
    -- functions without a context are the same after `withContext`.
    unfoldable pub add_named_migration_context :
        Str
        → Option (GoAction W)
        → Option (GoAction W)
        → VersionMap (Registration W)
        → Option RegistryError × VersionMap (Registration W)
    unfolding register
    add_named_migration_context filename up down =
        register filename true (record { run_tx = up; run_db = none; mode = transaction_enabled })
          (record { run_tx = down; run_db = none; mode = transaction_enabled })

    unfoldable pub add_named_migration_no_tx_context :
        Str
        → Option (GoAction W)
        → Option (GoAction W)
        → VersionMap (Registration W)
        → Option RegistryError × VersionMap (Registration W)
    unfolding register
    add_named_migration_no_tx_context filename up down =
        register filename false (record { run_tx = none; run_db = up; mode = transaction_disabled })
          (record { run_tx = none; run_db = down; mode = transaction_disabled })
