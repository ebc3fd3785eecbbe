-- ===== src/Legacy/Tests.antt =====
-- The package functions over a version table in memory.
use pressly_goose_patches.Base.{
  ◌+◌, is_nil, if◌then◌else◌, ◌≡◌, refl, true, false, List, [], ◌∷◌, none, some, arith, All,
}
use pressly_goose_patches.Sort.{sort_by, insert_by}
use pressly_goose_patches.VersionMap.{has, lookup, insert}
use pressly_goose_patches.Int.{ℤ, pos, eqb_ℤ, ltb_ℤ, leb_ℤ, ◌≤ℤ◌}
use pressly_goose_patches.Text.{codes, has_suffix, has_prefix}
use pressly_goose_patches.Outcome.{Result, ok, err}
use pressly_goose_patches.Resolve.{up_versions}
use pressly_goose_patches.Provider.{Driver, Store, ListResult, Call, returned}
use pressly_goose_patches.Provider.Memory.{refused}
use pressly_goose_patches.Registry.{no_legacy}
use pressly_goose_patches.Legacy.{
  LegacyMigration, run, run_go, run_go_migration, in_tx, or_rollback, run_fn, record_if,
  insert_or_delete_version, outcome,
}
use pressly_goose_patches.Legacy.Upward.{HasApplied, up_versioned-HasApplied}
use pressly_goose_patches.Legacy.Versions.{
  ensure_db_version, ensured, current_version, list_all_db_versions,
}
use pressly_goose_patches.Legacy.Commands.{
  Options, up_versioned, find_missing_migrations, missing_of, new_of, applied_of, apply_or_read,
  up_all, migrations_to_apply, last_version,
}
use pressly_goose_patches.Legacy.Selection.{selected, resolved, migrations_to_apply-up_versions}
use pressly_goose_patches.Legacy.Files.{last_of}
use pressly_goose_patches.Legacy.Fix.{
  System, versioned, timestamped, is_before_epoch, is_after_epoch, fix,
}
use pressly_goose_patches.Legacy.Numbers.{Renames, top, fix-Renames}
use pressly_goose_patches.Legacy.Rollback.{without, LegacyLedger, IsTame}

-- The world is the rows.
abbrev Rows : Type 0
Rows = List ListResult

abbrev calm : Call Rows
calm w = (none, w)

abbrev driver : Driver Rows
driver = record {
  begin = calm;
  commit = calm;
  rollback = calm;
  exec = λ h stmt. calm;
  open_conn = calm;
  close_conn = calm;
  max_open_connections = λ w. 0;
  open_file = λ path w. none;
  close_file = λ path w. none;
  expand = λ line. some line;
  append_errors = λ a b. elim a [ none ↦ b | some e ↦ some e ];
  retry_do = λ n f s. (err refused, s);
}

abbrev store : Store Rows
store = record {
  create_version_table = λ h. calm;
  insert = λ h v w. (none, record { version = v; is_applied = true } ∷ w);
  delete = λ h v w. (none, without v w);
  get_migration = λ h v w. (none, none, w);
  get_latest_version = λ h w. (ok (pos 0), w);
  list_migrations = λ h w. (ok w, w);
  table_exists = λ h w. (ok true, w);
}

ledger : LegacyLedger driver store (λ w. w)
ledger = record {
  begin_keeps = λ w. refl;
  commit_keeps = λ w. refl;
  exec_keeps = λ h q w. refl;
  delete_removes = λ h v w e. refl;
  insert_adds = λ h v w e. refl;
  list_reads = λ h w u rs e. (ground arith, ground arith);
}

abbrev migration : ℤ → LegacyMigration Rows
migration v = record {
  version = v;
  source = codes "m.go";
  registered = true;
  use_tx = true;
  no_versioning = false;
  up = no_legacy;
  down = record {
    fn_context = some (λ w. (returned none, w));
    fn_no_tx_context = none;
    fn = none;
    fn_no_tx = none;
  };
}

abbrev both : List (LegacyMigration Rows)
both = migration (pos 1) ∷ migration (pos 3) ∷ []

both-IsTame : All (IsTame driver store (λ w. w)) both
unfolding has_suffix has_prefix
both-IsTame =
    ((refl, (tt, tt), ((λ w. refl), tt), refl), ((refl, (tt, tt), ((λ w. refl), tt), refl), tt))

abbrev table : Rows
table =
    record { version = pos 3; is_applied = true }
    ∷ record { version = pos 1; is_applied = true }
    ∷ record { version = pos 0; is_applied = true }
    ∷ []

abbrev collect : ℤ → ℤ → Result (List (LegacyMigration Rows))
collect current target = ok both

-- The version 1 is missing below the 2 of the database, and the 3 is new.
migrations_to_apply-up_versions_example :
    selected (migrations_to_apply true (pos 0 ∷ pos 2 ∷ []) (pos 2) (pos 9) both)
    ≡ resolved (up_versions (pos 1 ∷ pos 3 ∷ []) (pos 0 ∷ pos 2 ∷ []) (pos 9) true)
unfolding last_version
migrations_to_apply-up_versions_example =
    migrations_to_apply-up_versions (pos 0 ∷ pos 2 ∷ []) (pos 2) (pos 9) both true
      ((omega arith, tt), (tt, tt)) (omega arith, (omega arith, tt)) ((omega arith, tt), (tt, tt))
      refl (omega arith)

abbrev plain : Options
plain = record { allow_missing = false; apply_up_by_one = false; no_versioning = false }

abbrev old_table : Rows
old_table =
    record { version = pos 1; is_applied = true }
    ∷ record { version = pos 0; is_applied = true }
    ∷ []

up_versioned-HasApplied_example :
    (v : ℤ) × (t : Rows) × (ensure_db_version driver store old_table ≡ (ok v, t))
    × HasApplied driver store collect
        (λ w. w)
        ledger
        false
        (pos 9)
        both
        t
        (record { version = pos 3; is_applied = true } ∷ old_table)
unfolding up_versioned ensure_db_version ensured current_version has lookup list_all_db_versions
    last_version migrations_to_apply find_missing_migrations missing_of new_of applied_of sort_by
    insert_by insert eqb_ℤ leb_ℤ ltb_ℤ apply_or_read up_all run has_suffix has_prefix run_go
    run_go_migration in_tx or_rollback run_fn record_if insert_or_delete_version outcome
up_versioned-HasApplied_example =
    up_versioned-HasApplied driver store collect (λ w. w) ledger false (pos 9) both both-IsTame
      plain old_table (record { version = pos 3; is_applied = true } ∷ old_table) refl refl refl

-- Versions from 1000 on count as timestamps.
abbrev system : System Rows
system = record {
  parse_time = λ s. if is_nil s then none else some (pos 1);
  decimal = λ v. if ltb_ℤ v (pos 1000) then [] else 49 ∷ [];
  five_digits = λ v. [];
  timestamp = λ w. [];
  join = λ dir file. file;
  rename = λ from to. calm;
  is_missing = λ path w. true;
  create_file = λ path. calm;
  execute = λ type path v name. calm;
}

abbrev mixed : List (LegacyMigration Rows)
mixed = migration (pos 1) ∷ migration (pos 3) ∷ migration (pos 2000) ∷ migration (pos 3000) ∷ []

fix-Renames_example :
    Renames system
      (top (last_of (versioned system mixed)) + 1)
      (timestamped system mixed)
      []
      (fix system (λ low high. ok mixed) [])
    × All (λ m. m.version ≤ℤ pos (top (last_of (versioned system mixed)))) (versioned system mixed)
unfolding versioned timestamped is_before_epoch is_after_epoch last_of ltb_ℤ
fix-Renames_example =
    fix-Renames system (λ low high. ok mixed) mixed [] refl
      (
        (omega arith, (omega arith, (omega arith, tt))),
        ((omega arith, (omega arith, tt)), ((omega arith, tt), (tt, tt))),
      )
      (omega arith, (omega arith, (omega arith, (omega arith, tt)))) (omega arith)
