-- ===== src/Provider/Batch.antt =====
-- provider_run.go: `runMigrations`, which runs a list of migrations in order.
use pressly_goose_patches.Base.{Bool, ◌||◌, List, [], ◌∷◌, ◌++◌, if◌then◌else◌}
use pressly_goose_patches.Int.{ℤ, eqb_ℤ}
use pressly_goose_patches.SqlParser.{Direction, to_bool}
use pressly_goose_patches.Outcome.{
  Source, MigrationResult, db_version_not_found, missing_zero_version, version_not_found, partial,
  Result, ok, err, Exec, pure, ◌>>=◌, ◌>>◌,
}
use pressly_goose_patches.Provider.{conn, Migration, Provider, State}
use pressly_goose_patches.Provider.Run.{
  Done, on_world, prepare_migration, is_empty, run_individually,
}

module _ {W : Type 0} (p : Provider W) where
  unfoldable pub latest_version : Result ℤ × State W → Result ℤ × State W
  latest_version (err db_version_not_found, s) = (err missing_zero_version, s)
  latest_version r = r

  -- `getDBMaxVersion` with a connection.
  unfoldable pub max_version_on_conn : Exec (State W) ℤ
  unfolding latest_version
  max_version_on_conn s = latest_version (on_world (p.store.get_latest_version conn) s)

  unfoldable pub get_migration : ℤ → List (Migration W) → Result (Migration W)
  get_migration version [] = err version_not_found
  get_migration version (m ∷ ms) =
      if eqb_ℤ m.version version then ok m else get_migration version ms

  unfoldable pub prepare_all : Direction → List (Migration W) → Exec (State W) Done
  prepare_all d [] = pure tt
  prepare_all d (m ∷ ms) = prepare_migration p m (to_bool d) >> prepare_all d ms

  unfoldable pub source_of : Migration W → Source
  source_of m = record { type = m.type; path = m.source; version = m.version }

  unfoldable pub result_of : Migration W → Direction → State W → MigrationResult
  unfolding source_of
  result_of m d s = record {
    source = source_of m;
    direction = d;
    empty = is_empty p m (to_bool d) s;
  }

  unfoldable pub reported :
      List MigrationResult
      → MigrationResult
      → Result Done × State W
      → Result MigrationResult × State W
  reported results result (ok _, s) = (ok result, s)
  reported results result (err e, s) = (err (partial results result e), s)

  unfoldable pub run_one :
      Direction → List MigrationResult → Migration W → Exec (State W) MigrationResult
  unfolding reported result_of
  run_one d results m s = reported results (result_of m d s) (run_individually p m (to_bool d) s)

  unfoldable pub run_all :
      Direction → List MigrationResult → List (Migration W) → Exec (State W) (List MigrationResult)
  run_all d results [] = pure results
  run_all d results (m ∷ ms) =
      run_one d results m >>= λ result. run_all d (results ++ result ∷ []) ms

  -- The maximum is read for a log message.
  unfoldable pub log_version : Bool → Exec (State W) Done
  log_version skip = if skip then pure tt else max_version_on_conn >> pure tt

  -- migrations[:1] if byOne
  unfoldable pub chosen : Bool → List (Migration W) → List (Migration W)
  chosen by_one [] = []
  chosen by_one (m ∷ ms) = if by_one then m ∷ [] else m ∷ ms

  unfoldable pub run_migrations :
      List (Migration W) → Direction → Bool → Exec (State W) (List MigrationResult)
  unfolding log_version chosen
  run_migrations [] d by_one = log_version p.cfg.disable_versioning >> pure []
  run_migrations (m ∷ ms) d by_one =
      let apply = chosen by_one (m ∷ ms) in
      prepare_all d apply
      >> (run_all d [] apply >>= λ results.
          log_version (p.cfg.disable_versioning || by_one) >> pure results)
