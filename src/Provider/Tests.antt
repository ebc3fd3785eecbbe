-- ===== src/Provider/Tests.antt =====
-- The theorems of the provider at runs over the database in memory.
use pressly_goose_patches.Base.{◌≡◌, refl, ℕ, zero, suc, true, false, List, [], ◌∷◌, arith, All}
use pressly_goose_patches.Int.{ℤ, pos, eqb_ℤ, ltb_ℤ, leb_ℤ}
use pressly_goose_patches.Sort.{sort_by}
use pressly_goose_patches.VersionMap.{insert, has}
use pressly_goose_patches.SqlParser.{direction_up, direction_down, to_bool}
use pressly_goose_patches.Resolve.{up_versions, find_missing, find_new, scan_db}
use pressly_goose_patches.Resolve.Spec.{IsPositive}
use pressly_goose_patches.Outcome.{type_go, panicked, ok, err, Exec, MigrationResult, partial}
use pressly_goose_patches.Provider.{Migration, State, Attempt, done, retryable, given_up}
use pressly_goose_patches.Provider.Run.{
  Done, is_mode_unset, is_enabled, go_use_tx, prepare_migration, use_tx, is_empty, run_go_action,
  run_go, run_type, run_migration, maybe_insert_or_delete, roll_back, or_roll_back, commit_tx,
  in_tx, begin_tx, run_and_record, choose_tx, run_individually,
}
use pressly_goose_patches.Provider.Session.{
  table_attempt, try_ensure_version_table, ensure_version_table, close, acquire_locks, with_table,
  initialize, deferred, with_session,
}
use pressly_goose_patches.Provider.Batch.{
  max_version_on_conn, get_migration, prepare_all, run_one, run_all, run_migrations,
}
use pressly_goose_patches.Provider.Methods.{
  max_int64, get_migrations, versions_to_apply, migrations_to_apply, up_body, up_internal,
  has_pending_body, has_pending, up, down_internal, down_body, up_to, up_by_one, down, down_to,
  apply_version, get_db_version, get_versions, status,
}
use pressly_goose_patches.Provider.Batches.{StopsAt, run_all-StopsAt}
use pressly_goose_patches.Provider.Upward.{IsLogged, files, up_internal-log, has_pending_after_up}
use pressly_goose_patches.Provider.Ledger.{IsTame, remove}
use pressly_goose_patches.Provider.Downward.{IsRolledBack, down_internal-log}
use pressly_goose_patches.Provider.Mutex.{IsBalanced}
use pressly_goose_patches.Provider.Unlocked.{methods-IsBalanced}
use pressly_goose_patches.Provider.Atomic.{failed_migration_undone}
use pressly_goose_patches.Provider.Memory.{
  Db, refused, retried, retry_fuel, first, second, third, provider_of, state_of, ledger,
  transactional,
}

panicking : run_individually (provider_of (third ∷ [])) third true (state_of (pos 0 ∷ [])) ≡ (
  err panicked,
  record {
    world = record { rows = pos 0 ∷ []; saved = pos 0 ∷ [] };
    holders = 0;
    table_once = false;
    parsed = [];
  },
)
unfolding run_individually choose_tx use_tx is_mode_unset go_use_tx is_enabled begin_tx in_tx
    commit_tx or_roll_back roll_back run_and_record run_migration run_type run_go run_go_action
    maybe_insert_or_delete
panicking = refl

abbrev two : List (Migration Db)
two = first ∷ second ∷ []

abbrev result : ℤ → MigrationResult
result v = record {
  source = record { type = type_go; path = []; version = v };
  direction = direction_up;
  empty = false;
}

-- The state after the migrations: the last one's transaction began at the row below the newest.
abbrev state_after : List ℤ → List ℤ → State Db
state_after vs before = record {
  world = record { rows = vs; saved = before };
  holders = 0;
  table_once = true;
  parsed = [];
}

abbrev one_row : List ℤ
one_row = pos 1 ∷ pos 0 ∷ []

abbrev two_rows : List ℤ
two_rows = pos 2 ∷ one_row

up_two :
    up (provider_of two) (state_of (pos 0 ∷ []))
    ≡ (ok (result (pos 1) ∷ result (pos 2) ∷ []), state_after two_rows one_row)
unfolding prepare_migration use_tx is_empty run_go run_migration maybe_insert_or_delete begin_tx
    run_and_record run_individually table_attempt try_ensure_version_table ensure_version_table
    close acquire_locks with_table initialize deferred with_session max_version_on_conn
    get_migration prepare_all run_one run_all run_migrations get_migrations versions_to_apply
    migrations_to_apply up_body up_internal has_pending_body has_pending up sort_by find_missing
    find_new scan_db has insert up_versions ltb_ℤ leb_ℤ eqb_ℤ to_bool retry_fuel
up_two = refl

no_more :
    has_pending (provider_of two) (state_after two_rows one_row)
    ≡ (ok false, state_after two_rows one_row)
unfolding ensure_version_table close acquire_locks with_table initialize deferred with_session
    versions_to_apply has_pending_body has_pending sort_by find_missing find_new scan_db has insert
    up_versions leb_ℤ eqb_ℤ
no_more = refl

up_one :
    up_internal (provider_of two) true max_int64 (state_of (pos 0 ∷ []))
    ≡ (ok (result (pos 1) ∷ []), state_after one_row (pos 0 ∷ []))
unfolding prepare_migration use_tx is_empty run_go run_migration maybe_insert_or_delete begin_tx
    run_and_record run_individually table_attempt try_ensure_version_table ensure_version_table
    close acquire_locks with_table initialize deferred with_session get_migration prepare_all
    run_one run_all run_migrations get_migrations versions_to_apply migrations_to_apply up_body
    up_internal sort_by find_missing find_new scan_db has insert up_versions ltb_ℤ leb_ℤ eqb_ℤ
    to_bool retry_fuel
up_one = refl

stopped :
    run_all
      (provider_of [])
      direction_up
      []
      (first ∷ third ∷ second ∷ [])
      (state_after (pos 0 ∷ []) [])
    ≡ (err (partial (result (pos 1) ∷ []) (result (pos 3)) panicked), state_after one_row one_row)
unfolding use_tx is_empty run_go run_migration maybe_insert_or_delete begin_tx run_and_record
    run_individually run_one run_all to_bool
stopped = refl

two-IsTame : All (IsTame (λ w. w.rows)) two
two-IsTame = (
  record { up_tx = λ w. refl; up_db = tt; down_tx = tt; down_db = tt },
  (record { up_tx = λ w. refl; up_db = tt; down_tx = tt; down_db = tt }, tt),
)

two-IsPositive : All IsPositive (files (provider_of two))
two-IsPositive = omega arith

third_use_tx : use_tx (provider_of (third ∷ [])) third true (state_of (pos 0 ∷ [])) ≡ ok true
unfolding use_tx is_mode_unset go_use_tx is_enabled
third_use_tx = refl

failed_migration_undone_example : pos 0 ∷ [] ≡ pos 0 ∷ []
failed_migration_undone_example =
    failed_migration_undone (provider_of (third ∷ [])) (λ w. w.rows) (λ w. w.saved)
      (transactional (third ∷ [])) third (λ w. refl) tt true (state_of (pos 0 ∷ []))
      (record {
        world = record { rows = pos 0 ∷ []; saved = pos 0 ∷ [] };
        holders = 0;
        table_once = false;
        parsed = [];
      })
      panicked third_use_tx refl panicking

up_internal-log_example :
    (apply : List (Migration Db)) × IsLogged
      (provider_of two)
      (λ w. w.rows)
      (ledger two)
      refl
      two-IsTame
      true
      max_int64
      (pos 0 ∷ [])
      one_row
      apply
up_internal-log_example =
    up_internal-log (provider_of two) (λ w. w.rows) (ledger two) refl two-IsTame true max_int64
      (state_of (pos 0 ∷ [])) (state_after one_row (pos 0 ∷ [])) (result (pos 1) ∷ []) up_one

has_pending_after_up_example : false ≡ false
has_pending_after_up_example =
    has_pending_after_up (provider_of two) (λ w. w.rows) (ledger two) refl two-IsTame
      (state_of (pos 0 ∷ [])) (state_after two_rows one_row) (state_after two_rows one_row)
      (result (pos 1) ∷ result (pos 2) ∷ []) false two-IsPositive up_two no_more

run_all-StopsAt_example :
    StopsAt
      (provider_of [])
      direction_up
      []
      (first ∷ third ∷ second ∷ [])
      (state_after (pos 0 ∷ []) [])
      (state_after one_row one_row)
      (partial (result (pos 1) ∷ []) (result (pos 3)) panicked)
run_all-StopsAt_example =
    run_all-StopsAt (provider_of []) direction_up [] (first ∷ third ∷ second ∷ [])
      (state_after (pos 0 ∷ []) []) (state_after one_row one_row)
      (partial (result (pos 1) ∷ []) (result (pos 3)) panicked) stopped

retried-holders :
    (x : Attempt × State Db) (again : Exec (State Db) Done)
    → ((s : State Db) → s.holders ≡ (again s).1.holders)
    → x.1.holders ≡ (retried x again).1.holders
unfolding retried
retried-holders (done, s) again h = refl
retried-holders (given_up e, s) again h = refl
retried-holders (retryable e, s) again h = h s

retry_fuel-holders :
    (n : ℕ) (f : State Db → Attempt × State Db)
    → ((s : State Db) → s.holders ≡ (f s).1.holders)
    → (s : State Db) → s.holders ≡ (retry_fuel n f s).1.holders
unfolding retry_fuel
retry_fuel-holders zero f h s = cc (h s, retried-holders (f s) (λ t. (err refused, t)) (λ t. refl))
retry_fuel-holders (suc n) f h s =
    cc (h s, retried-holders (f s) (retry_fuel n f) (retry_fuel-holders n f h))

methods-IsBalanced_example :
    IsBalanced (provider_of two) (up (provider_of two))
    × IsBalanced (provider_of two) (up_to (provider_of two) (pos 1))
    × IsBalanced (provider_of two) (up_by_one (provider_of two))
    × IsBalanced (provider_of two) (down (provider_of two))
    × IsBalanced (provider_of two) (down_to (provider_of two) (pos 1))
    × IsBalanced (provider_of two) (apply_version (provider_of two) (pos 1) true)
    × IsBalanced (provider_of two) (has_pending (provider_of two))
    × IsBalanced (provider_of two) (get_db_version (provider_of two))
    × IsBalanced (provider_of two) (get_versions (provider_of two))
    × IsBalanced (provider_of two) (status (provider_of two))
methods-IsBalanced_example = methods-IsBalanced (provider_of two) retry_fuel-holders (pos 1) true

down_one : down_internal (provider_of two) true (pos 0) (state_of two_rows) ≡ (
  ok (
      record {
        source = record { type = type_go; path = []; version = pos 2 };
        direction = direction_down;
        empty = true;
      }
      ∷ []),
  state_after one_row two_rows,
)
unfolding prepare_migration use_tx is_empty run_go run_migration maybe_insert_or_delete begin_tx
    run_and_record run_individually table_attempt try_ensure_version_table ensure_version_table
    close acquire_locks with_table initialize deferred with_session get_migration prepare_all
    run_one run_all run_migrations get_migrations ltb_ℤ leb_ℤ eqb_ℤ to_bool retry_fuel down_internal
    down_body remove
down_one = refl

down_internal-log_example :
    (apply : List (Migration Db)) × IsRolledBack
      (provider_of two)
      (λ w. w.rows)
      (ledger two)
      refl
      two-IsTame
      true
      (pos 0)
      (state_of two_rows)
      (state_after one_row two_rows)
      (record {
        source = record { type = type_go; path = []; version = pos 2 };
        direction = direction_down;
        empty = true;
      }
        ∷ [])
      apply
down_internal-log_example =
    down_internal-log (provider_of two) (λ w. w.rows) (ledger two) refl two-IsTame true (pos 0)
      (state_of two_rows) (state_after one_row two_rows)
      (record {
        source = record { type = type_go; path = []; version = pos 2 };
        direction = direction_down;
        empty = true;
      }
        ∷ [])
      refl (omega arith) down_one
