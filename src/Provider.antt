-- ===== src/Provider.antt =====
-- The provider: provider.go, provider_run.go and the types of migration.go, over the packages
-- `database` and `lock`, which are interfaces to the provider. `W` is the world that these act on:
-- the database with its version table, and whatever migration functions change.
pub mod Run
pub mod Session
pub mod Batch
pub mod Methods
pub mod Atomic
pub mod Ledger
pub mod Log
pub mod Batches
pub mod Quiet
pub mod Mutex
pub mod Release
pub mod Unlocked
pub mod Upward
pub mod Downward
pub mod Options
pub mod Memory
mod Tests
use pressly_goose_patches.Base.{ℕ, Bool, true, false, List, Option, none, some}
use pressly_goose_patches.Int.{ℤ}
use pressly_goose_patches.VersionMap.{VersionMap}
use pressly_goose_patches.Text.{Str}
use pressly_goose_patches.Outcome.{MigrationType, Error, Exec}

-- `TransactionMode` of migration.go, an int in the source, where 0 is no constant.
pub data TransactionMode : Type 0 where
  mode_unset transaction_enabled transaction_disabled mode_other : TransactionMode

-- What a user's Go function may do: return, or panic.
pub data GoOutcome : Type 0 where
  returned : Option Error → GoOutcome
  panics : GoOutcome

abbrev pub GoAction : Type 0 → Type 0
GoAction W = W → GoOutcome × W

pub record GoFunc (W : Type 0) : Type 0 where
  pub run_tx : Option (GoAction W)
  pub run_db : Option (GoAction W)
  pub mode : TransactionMode

pub record Migration (W : Type 0) : Type 0 where
  pub type : MigrationType
  pub version : ℤ
  pub source : Str
  pub go_up : GoFunc W
  pub go_down : GoFunc W

-- `sqlMigration` once it is parsed.
pub record ParsedSql : Type 0 where
  pub use_tx : Bool
  pub up : List Str
  pub down : List Str

-- The connection that a statement goes through: `*sql.Conn`, `*sql.DB` or `*sql.Tx`.
pub data Handle : Type 0 where
  conn db tx : Handle

abbrev pub Call : Type 0 → Type 0
Call W = W → Option Error × W

-- The world, and the fields of the provider and of its migrations that methods change: the times
-- that `mu` is locked, whether `versionTableOnce` has run, and the SQL files parsed so far.
pub record State (W : Type 0) : Type 0 where
  pub world : W
  pub holders : ℕ
  pub table_once : Bool
  pub parsed : VersionMap ParsedSql

-- What the function given to `retry.Do` returns: nil, a `retry.RetryableError`, or another error.
pub data Attempt : Type 0 where
  done : Attempt
  retryable given_up : Error → Attempt

-- What the provider uses of `database/sql`, `io/fs`, `go.uber.org/multierr` and
-- `github.com/sethvargo/go-retry`, whose first argument here is that of `WithMaxRetries`.
pub record Driver (W : Type 0) : Type 0 where
  pub begin : Call W
  pub commit : Call W
  pub rollback : Call W
  pub exec : Handle → Str → Call W
  pub open_conn : Call W
  pub close_conn : Call W
  pub max_open_connections : W → ℕ
  -- The lines that a file scanner gives, and whether it then fails; `none` if it cannot be opened.
  pub open_file : Str → W → Option (List Str × Bool)
  pub close_file : Str → W → Option Error
  pub expand : Str → Option Str
  pub append_errors : Option Error → Option Error → Option Error
  pub retry_do : ℕ → (State W → Attempt × State W) → Exec (State W) (Unit {0})

pub record ListResult : Type 0 where
  pub version : ℤ
  pub is_applied : Bool

-- `database.Store`, with `TableExists` of `database.StoreExtender`. A lookup returns its two values.
pub record Store (W : Type 0) : Type 0 where
  pub create_version_table : Handle → Call W
  pub insert : Handle → ℤ → Call W
  pub delete : Handle → ℤ → Call W
  pub get_migration : Handle → ℤ → W → Option Bool × Option Error × W
  pub get_latest_version : Handle → Exec W ℤ
  pub list_migrations : Handle → Exec W (List ListResult)
  pub table_exists : Handle → Exec W Bool

-- `lock.SessionLocker` and `lock.Locker`.
pub record Locker (W : Type 0) : Type 0 where
  pub lock : Call W
  pub unlock : Call W

-- The part of `config` that the provider reads after its construction.
pub record Config (W : Type 0) : Type 0 where
  pub lock_enabled : Bool
  pub session_locker : Option (Locker W)
  pub locker : Option (Locker W)
  pub disable_versioning : Bool
  pub allow_missing : Bool
  pub isolate_ddl : Bool

pub record Provider (W : Type 0) : Type 0 where
  pub driver : Driver W
  pub store : Store W
  pub cfg : Config W
  pub migrations : List (Migration W)
