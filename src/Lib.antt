-- ===== src/Lib.antt =====
-- Verification of goose, the database migration tool (https://github.com/pressly/goose).
--
-- goose collects migration files and Go functions, compares their versions with the version table
-- of a database, and runs those that are pending up, or those that are applied down. The parts and
-- the files that model them:
--   * internal/gooseutil/resolve.go, which versions an up migration applies: Resolve, with
--     Resolve/Spec and Resolve/Pending for what it returns, and Resolve/Settled.
--   * internal/sqlparser/parser.go, the state machine that splits a migration file into
--     statements: SqlParser (annotations) and SqlParser/Machine (`step` is one round of the loop of
--     `ParseSQLMigration`, `parse_lines` the function over the lines of the scanner); the other
--     children of SqlParser hold the proofs.
--   * internal/sqlparser/parse.go, migration.go and the first half of provider_run.go, preparing and
--     running one migration in a transaction or without: Provider (the types) and Provider/Run.
--   * provider_run.go, `initialize`, the locks, the cleanup functions and the version table:
--     Provider/Session. `runMigrations`: Provider/Batch.
--   * provider.go, the methods of `Provider`: Provider/Methods.
--   * provider_collect.go, `NumericComponent` of migration.go and `newProvider` of provider.go:
--     Collect and Collect/Merge.
--   * provider_types.go and provider_errors.go: Outcome, with the monad of the methods.
--   * globals.go, register.go and `NewGoMigration` of migration.go: Registry.
--   * provider_options.go and `NewProvider` of provider.go: Provider/Options.
--   * lock/internal/store: Lock (the table, the server and the statements), Lock/Postgres and Lock/Mysql.
--   * lock/internal/table/locker.go: Lock/Locker; the options and constructors of lock: Lock/Options and
--     Lock/Session, with the session locker of lock/postgres.go.
--   * migrate.go, up.go, down.go, reset.go, redo.go, version.go, migration_sql.go and `run` of
--     migration.go, the functions that precede the provider: Legacy, with Legacy/Files, Legacy/Versions
--     and Legacy/Commands. fix.go and create.go: Legacy/Fix. goose.go and status.go: Legacy/Dispatch.
--   * helpers.go: Text/Cases.
-- The remaining children of Provider hold proofs: Atomic (transactions), Ledger, Log, Quiet, Upward and
-- Downward (the version table), Batches (what `runMigrations` runs), Mutex, Release and Unlocked (the mutex), Options/Exclusive (the lockers).
-- So do those of Lock: Agree (the two stores), Lease and Refine (the abstract lock with a lease, and what
-- the stores do to it), Exclusion (several instances), Duration (how long a lease is) and Balance (the
-- mutex, the heartbeat and the row after Lock); Registry/Checked; Legacy/Selection (which migrations up
-- applies), Legacy/Rollback, Legacy/Upward and Legacy/Ends (the version table, and the loop of DownTo),
-- Legacy/Numbers (what Fix renames files to); Collect/Merged and Collect/Sources; and Text/Cases/Shape.
-- Base, Int, Sort, VersionMap and Text are shared: lists over native numbers, `int64` as signed
-- integers, a sort, Go's maps as association lists, and the functions of Go's `strings` and `bufio`.
--
-- A method is a function from a state to a result and a new state (`Exec`). The state holds the world
-- `W` (the database and whatever migrations change), the mutex of the provider, its `sync.Once`, and
-- the SQL files that it has parsed. `database/sql`, the stores, the lockers, `io/fs`, multierr and
-- go-retry are records of functions (`Driver`, `Store`, `Locker`), and what is relied on is stated as
-- records of laws: `Transactional` in Provider/Atomic and `Ledger` in Provider/Ledger. The module
-- Provider/Memory fills both with a database in memory.
--
-- One function of the model runs on fuel, the loop of `DownToContext`: `down_rounds` in
-- Legacy/Commands, for which one round more than the version table has rows is enough. Every other loop of
-- the source runs over a list. Retries are a parameter, `retry_do`. Times in Lock are nanoseconds of the
-- server's clock. Lock/Mysql takes `RowsAffected` as the driver gives it by default: the rows that change.
--
-- Not modelled: the rounding of `Duration.Seconds` to a float64, which matters for leases of months;
-- contexts and their cancellation, durations, log messages and the texts of errors,
-- values that Go returns beside an error, concurrent calls (the two passes of `ParseAllFromFS` are one
-- after the other; instances that share a lock are interleaved call by call), dialects and the stores of versions, and
-- the command line.
pub mod Base
pub mod Collect
pub mod Int
pub mod Legacy
pub mod Lock
pub mod Outcome
pub mod Provider
pub mod Registry
pub mod Resolve
pub mod Sort
pub mod SqlParser
pub mod Text
pub mod VersionMap
