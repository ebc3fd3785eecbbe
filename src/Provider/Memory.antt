-- ===== src/Provider/Memory.antt =====
-- A database in memory, and a provider over it: instances of the interfaces of the provider.
use pressly_goose_patches.Base.{
  ◌≡◌, refl, ℕ, zero, suc, true, false, List, [], ◌∷◌, none, some, arith, map,
}
use pressly_goose_patches.Int.{ℤ, pos}
use pressly_goose_patches.Outcome.{type_go, Error, external, Result, ok, err, Exec}
use pressly_goose_patches.Provider.{
  transaction_enabled, returned, panics, GoAction, GoFunc, Migration, Handle, Call, Driver,
  ListResult, Store, Provider, State, Attempt, done, retryable, given_up,
}
use pressly_goose_patches.Provider.Run.{Done}
use pressly_goose_patches.Provider.Ledger.{Ledger, remove}
use pressly_goose_patches.Provider.Atomic.{Transactional}

-- The rows of the version table, and those before the transaction that is open.
pub record Db : Type 0 where
  pub rows : List ℤ
  pub saved : List ℤ

abbrev pub refused : Error
refused = external []

abbrev pub calm : Call Db
calm w = (none, w)

abbrev pub begin_db : Call Db
begin_db w = (none, record w { saved = w.rows })

abbrev pub rollback_db : Call Db
rollback_db w = (none, record w { rows = w.saved })

abbrev pub insert_db : Handle → ℤ → Call Db
insert_db h v w = (none, record w { rows = v ∷ w.rows })

abbrev pub delete_db : Handle → ℤ → Call Db
delete_db h v w = (none, record w { rows = remove v w.rows })

abbrev pub list_results : List ℤ → List ListResult
list_results [] = []
list_results (v ∷ vs) = record { version = v; is_applied = true } ∷ list_results vs

unfoldable pub retried : Attempt × State Db → Exec (State Db) Done → Result Done × State Db
retried (done, s) again = (ok tt, s)
retried (given_up e, s) again = (err e, s)
retried (retryable e, s) again = again s

unfoldable pub retry_fuel : ℕ → (State Db → Attempt × State Db) → Exec (State Db) Done
unfolding retried
retry_fuel zero f s = retried (f s) (λ t. (err refused, t))
retry_fuel (suc n) f s = retried (f s) (retry_fuel n f)

abbrev pub driver : Driver Db
driver = record {
  begin = begin_db;
  commit = calm;
  rollback = rollback_db;
  exec = λ h stmt. calm;
  open_conn = calm;
  close_conn = calm;
  max_open_connections = λ w. 0;
  open_file = λ path w. none;
  close_file = λ path w. none;
  expand = λ line. some line;
  append_errors = λ a b. elim a [ none ↦ b | some e ↦ some e ];
  retry_do = retry_fuel;
}

abbrev pub store : Store Db
store = record {
  create_version_table = λ h. calm;
  insert = insert_db;
  delete = delete_db;
  get_migration = λ h v w. (none, none, w);
  get_latest_version = λ h w. (ok (pos 0), w);
  list_migrations = λ h w. (ok (list_results w.rows), w);
  table_exists = λ h w. (ok true, w);
}

abbrev pub no_go : GoFunc Db
no_go = record { run_tx = none; run_db = none; mode = transaction_enabled }

abbrev pub go_func : GoAction Db → GoFunc Db
go_func f = record { run_tx = some f; run_db = none; mode = transaction_enabled }

abbrev pub go_migration : ℤ → GoAction Db → Migration Db
go_migration v f = record {
  type = type_go;
  version = v;
  source = [];
  go_up = go_func f;
  go_down = no_go;
}

abbrev pub first : Migration Db
first = go_migration (pos 1) (λ w. (returned none, w))

abbrev pub second : Migration Db
second = go_migration (pos 2) (λ w. (returned none, w))

-- A migration that panics.
abbrev pub third : Migration Db
third = go_migration (pos 3) (λ w. (panics, w))

abbrev pub provider_of : List (Migration Db) → Provider Db
provider_of ms = record {
  driver = driver;
  store = store;
  cfg = record {
    lock_enabled = false;
    session_locker = none;
    locker = none;
    disable_versioning = false;
    allow_missing = false;
    isolate_ddl = false;
  };
  migrations = ms;
}

abbrev pub state_of : List ℤ → State Db
state_of vs = record {
  world = record { rows = vs; saved = [] };
  holders = 0;
  table_once = false;
  parsed = [];
}

list_results-versions : (vs : List ℤ) → map (λ r. r.version) (list_results vs) ≡ vs
list_results-versions [] = refl
list_results-versions (v ∷ vs) = cc (list_results-versions vs)

retry_fuel-done :
    (n : ℕ) (f : State Db → Attempt × State Db) (s t : State Db)
    → f s ≡ (done, t)
    → retry_fuel n f s ≡ (ok tt, t)
unfolding retry_fuel
retry_fuel-done zero f s t h = ground arith
retry_fuel-done (suc n) f s t h = ground arith

pub ledger : (ms : List (Migration Db)) → Ledger (provider_of ms) (λ w. w.rows)
ledger ms = record {
  begin_keeps = λ w. refl;
  commit_keeps = λ w h. refl;
  exec_keeps = λ h stmt w e. refl;
  insert_adds = λ h v w e. refl;
  delete_removes = λ h v w e. refl;
  list_reads = λ w w' rows h. ground (arith, list_results-versions w.rows);
  latest_keeps = λ w. refl;
  open_keeps = λ w. refl;
  close_keeps = λ w. refl;
  session_locker_keeps = tt;
  locker_keeps = tt;
  table_exists_keeps = λ w. (refl, refl);
  retry_done = retry_fuel-done;
  append_not_nil = λ e o h. cc;
}

pub transactional :
    (ms : List (Migration Db)) → Transactional (provider_of ms) (λ w. w.rows) (λ w. w.saved)
transactional ms = record {
  begin_opens = λ w h. refl;
  begin_fails = λ w e h. cc;
  exec_base = λ stmt w. refl;
  insert_base = λ v w. refl;
  delete_base = λ v w. refl;
  commit_fails = λ w e h. cc;
  rollback_base = λ w. refl;
}
