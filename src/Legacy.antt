-- ===== src/Legacy.antt =====
-- The functions of the package that use global state: `Migration.run` of migration.go and migration_sql.go.
-- The store and the driver are those of the provider; a store method without a transaction goes through
-- the handle `db`. The names of files are base names.
pub mod Files
pub mod Versions
pub mod Commands
pub mod Selection
pub mod Fix
pub mod Numbers
pub mod Dispatch
pub mod Upward
pub mod Rollback
pub mod Ends
mod Tests
use pressly_goose_patches.Base.{
  Bool, true, false, not, ◌&&◌, List, [], ◌∷◌, Option, none, some, if◌then◌else◌,
}
use pressly_goose_patches.Int.{ℤ}
use pressly_goose_patches.Text.{Str, codes, has_suffix}
use pressly_goose_patches.SqlParser
use pressly_goose_patches.SqlParser.{from_bool}
use pressly_goose_patches.SqlParser.Machine.{parse_lines}
use pressly_goose_patches.Outcome.{
  Error, external, panicked, open_failed, parse_failed, Result, ok, err, Exec, pure, fail, ◌>>=◌,
  ◌>>◌,
}
use pressly_goose_patches.Provider.{
  GoOutcome, returned, panics, GoAction, Handle, db, tx, Call, Driver, Store,
}
use pressly_goose_patches.Provider.Run.{Done, settle, is_some}
use pressly_goose_patches.Registry.{Legacy, no_legacy}

-- The fields of `Migration` that the functions here read.
pub record LegacyMigration (W : Type 0) : Type 0 where
  pub version : ℤ
  pub source : Str
  pub registered : Bool
  pub use_tx : Bool
  pub no_versioning : Bool
  pub up : Legacy W
  pub down : Legacy W

-- A panic ends the program; it is an error here.
unfoldable pub outcome : GoOutcome → Result Done
outcome (returned none) = ok tt
outcome (returned (some e)) = err e
outcome panics = err panicked

module _ {W : Type 0} where
  abbrev pub made : Call W → Exec W Done
  made c w = (settle (c w).0, (c w).1)

  unfoldable pub run_fn : Option (GoAction W) → Exec W Done
  unfolding outcome
  run_fn none w = (ok tt, w)
  run_fn (some f) w = (outcome (f w).0, (f w).1)

module _ {W : Type 0} (driver : Driver W) (store : Store W) where
  -- `insertOrDeleteVersion` and `insertOrDeleteVersionNoTx`
  unfoldable pub insert_or_delete_version : Handle → ℤ → Bool → Exec W Done
  insert_or_delete_version h v direction =
      made (if direction then store.insert h v else store.delete h v)

  unfoldable pub record_if : Bool → Handle → ℤ → Bool → Exec W Done
  unfolding insert_or_delete_version
  record_if b h v direction = if b then insert_or_delete_version h v direction else pure tt

  -- The statements through a handle, up to the first error.
  unfoldable pub exec_statements : Handle → List Str → Exec W Done
  exec_statements h [] = pure tt
  exec_statements h (q ∷ qs) = made (driver.exec h q) >> exec_statements h qs

  -- The rollback after an error, whose own error is dropped.
  unfoldable pub or_rollback : Result Done × W → Result Done × W
  or_rollback (ok _, w) = (ok tt, w)
  or_rollback (err e, w) = (err e, (driver.rollback w).1)

  -- A transaction around a body; nothing is rolled back where the commit fails.
  unfoldable pub in_tx : Exec W Done → Exec W Done
  unfolding or_rollback
  in_tx body = made driver.begin >> (λ w. or_rollback (body w)) >> made driver.commit

  unfoldable pub run_sql_migration : List Str → Bool → ℤ → Bool → Bool → Exec W Done
  unfolding in_tx exec_statements record_if
  run_sql_migration statements use_tx v direction no_versioning =
      if use_tx
      then in_tx (exec_statements tx statements >> record_if (not no_versioning) tx v direction)
      else exec_statements db statements >> record_if (not no_versioning) db v direction

  unfoldable pub run_go_migration_no_tx : Option (GoAction W) → ℤ → Bool → Bool → Exec W Done
  unfolding run_fn record_if
  run_go_migration_no_tx fn v direction record_version =
      run_fn fn >> record_if record_version db v direction

  unfoldable pub run_go_migration : Option (GoAction W) → ℤ → Bool → Bool → Exec W Done
  unfolding in_tx run_fn record_if
  run_go_migration fn v direction record_version =
      if not (is_some fn) && not record_version
      then pure tt
      else in_tx (run_fn fn >> record_if record_version tx v direction)

  -- The file of a SQL migration, opened and parsed.
  unfoldable pub run_parsed :
      LegacyMigration W → Bool → SqlParser.Result (List Str × Bool) → Exec W Done
  unfolding run_sql_migration
  run_parsed m direction (SqlParser.err e) = fail (parse_failed e)
  run_parsed m direction (SqlParser.ok (statements, use_tx)) =
      run_sql_migration statements use_tx m.version direction m.no_versioning

  unfoldable pub run_opened : LegacyMigration W → Bool → Option (List Str × Bool) → Exec W Done
  unfolding run_parsed
  run_opened m direction none = fail open_failed
  run_opened m direction (some (lines, failed)) =
      run_parsed m direction (parse_lines driver.expand (from_bool direction) lines failed)

  unfoldable pub run_go : LegacyMigration W → Bool → Exec W Done
  unfolding run_go_migration run_go_migration_no_tx
  run_go m direction =
      let l = if direction then m.up else m.down in
      if not m.registered
      then fail (external (codes "Go functions must be registered"))
      else if m.use_tx
      then run_go_migration l.fn_context m.version direction (not m.no_versioning)
      else run_go_migration_no_tx l.fn_no_tx_context m.version direction (not m.no_versioning)

  -- `Migration.run`; `UpContext` and `DownContext` are its two directions.
  unfoldable pub run : LegacyMigration W → Bool → Exec W Done
  unfolding run_opened run_go
  run m direction w =
      if has_suffix m.source (codes ".sql")
      then run_opened m direction (driver.open_file m.source w) w
      else if has_suffix m.source (codes ".go")
      then run_go m direction w
      else (ok tt, w)
