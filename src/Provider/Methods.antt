-- ===== src/Provider/Methods.antt =====
-- provider.go: the methods of `Provider` that migrate, and those that look.
use pressly_goose_patches.Base.{
  Bool, true, false, not, ◌&&◌, List, [], ◌∷◌, Option, none, some, if◌then◌else◌, is_nil, map,
}
use pressly_goose_patches.Int.{ℤ, pos, negsuc, ltb_ℤ, leb_ℤ, eqb_ℤ}
use pressly_goose_patches.SqlParser.{direction_up, direction_down, from_bool}
use pressly_goose_patches.Resolve
use pressly_goose_patches.Resolve.{Resolved, up_versions}
use pressly_goose_patches.Outcome.{
  Source, MigrationResult, Error, db_version_not_found, invalid_version, by_one_without_versioning,
  panicked, missing_zero_version, no_next_version, unexpected_results, already_applied, not_applied,
  versioning_disabled, missing_migrations, failed_to_initialize, Result, ok, err, Exec, pure, fail,
  lift, ◌>>=◌, ◌>>◌,
}
use pressly_goose_patches.Provider.{conn, Migration, ListResult, Provider, State}
use pressly_goose_patches.Provider.Run.{Done, on_world, is_some}
use pressly_goose_patches.Provider.Session.{with_session}
use pressly_goose_patches.Provider.Batch.{
  max_version_on_conn, get_migration, source_of, run_migrations,
}

-- math.MaxInt64
abbrev pub max_int64 : ℤ
max_int64 = pos 9223372036854775807

-- `MigrationStatus` of provider_types.go, without the time.
pub record MigrationStatus : Type 0 where
  pub source : Source
  pub is_applied : Bool

abbrev Results : Type 0
Results = List MigrationResult

module _ {W : Type 0} (p : Provider W) where
  abbrev pub session : {A : Type 0} → Bool → Exec (State W) A → Exec (State W) A
  session use_locker body = with_session p use_locker failed_to_initialize body

  unfoldable pub get_versions_from_migrations : List (Migration W) → List ℤ
  get_versions_from_migrations = map (λ m. m.version)

  unfoldable pub get_versions_from_list_migrations : List ListResult → List ℤ
  get_versions_from_list_migrations = map (λ m. m.version)

  unfoldable pub get_migrations : List ℤ → Result (List (Migration W))
  get_migrations [] = ok []
  get_migrations (v ∷ vs) = elim (get_migration p v p.migrations) [
    | err e ↦ err e
    | ok m ↦ elim (get_migrations vs) [ err e ↦ err e | ok ms ↦ ok (m ∷ ms) ]
  ]

  unfoldable pub resolved : Resolved → Result (List ℤ)
  resolved (Resolve.ok vs) = ok vs
  resolved (Resolve.err e) = err (missing_migrations e)

  -- The call of `gooseutil.UpVersions`.
  unfoldable pub versions_to_apply : ℤ → List ListResult → Result (List ℤ)
  unfolding resolved get_versions_from_migrations get_versions_from_list_migrations
  versions_to_apply version rows = resolved (
      up_versions (get_versions_from_migrations p.migrations)
        (get_versions_from_list_migrations rows) version p.cfg.allow_missing)

  unfoldable pub migrations_to_apply : ℤ → List ListResult → Exec (State W) (List (Migration W))
  migrations_to_apply version [] = fail missing_zero_version
  migrations_to_apply version (row ∷ rows) =
      lift (versions_to_apply version (row ∷ rows)) >>= λ vs. lift (get_migrations vs)

  unfoldable pub up_body : Bool → ℤ → Exec (State W) Results
  up_body by_one version =
      if is_nil p.migrations
      then pure []
      else if p.cfg.disable_versioning
      then if by_one
        then fail by_one_without_versioning
        else run_migrations p p.migrations direction_up by_one
      else on_world (p.store.list_migrations conn) >>= λ rows.
          migrations_to_apply version rows >>= λ apply. run_migrations p apply direction_up by_one

  unfoldable pub up_internal : Bool → ℤ → Exec (State W) Results
  up_internal by_one version =
      if ltb_ℤ version (pos 1) then fail invalid_version else session true (up_body by_one version)

  -- migrations[len(migrations)-1], of a list that is not empty
  unfoldable pub last_of : Migration W → List (Migration W) → Migration W
  last_of m [] = m
  last_of m (n ∷ ms) = last_of n ms

  unfoldable pub down_unversioned : Bool → List (Migration W) → Exec (State W) Results
  unfolding last_of
  down_unversioned by_one [] = pure []
  down_unversioned by_one (m ∷ ms) =
      run_migrations p (if by_one then last_of m ms ∷ [] else m ∷ ms) direction_down by_one

  -- The rows above a version, up to the first that is not.
  unfoldable pub rows_above : ℤ → List ListResult → List ℤ
  rows_above version [] = []
  rows_above version (row ∷ rows) =
      if leb_ℤ row.version version then [] else row.version ∷ rows_above version rows

  unfoldable pub down_rows : Bool → ℤ → List ListResult → Exec (State W) Results
  unfolding rows_above get_migrations
  down_rows by_one version [] = fail missing_zero_version
  down_rows by_one version (row ∷ rows) =
      if eqb_ℤ row.version (pos 0)
      then pure []
      else lift (get_migrations (rows_above version (row ∷ rows))) >>= λ apply.
          run_migrations p apply direction_down by_one

  unfoldable pub down_body : Bool → ℤ → Exec (State W) Results
  unfolding down_unversioned down_rows
  down_body by_one version =
      if is_nil p.migrations
      then pure []
      else if p.cfg.disable_versioning
      then down_unversioned by_one p.migrations
      else on_world (p.store.list_migrations conn) >>= down_rows by_one version

  unfoldable pub down_internal : Bool → ℤ → Exec (State W) Results
  down_internal by_one version = session true (down_body by_one version)

  -- `GetMigration`: the row, or none if the error is `ErrVersionNotFound`.
  found : Option Bool × Option Error → Result (Option Bool)
  found (row, none) = ok row
  found (row, some db_version_not_found) = ok row
  found (row, some e) = err e

  unfoldable pub find_row : ℤ → Exec (State W) (Option Bool)
  unfolding found
  find_row version s =
      let (row, e, w) = p.store.get_migration conn version s.world in
      (found (row, e), record s { world = w })

  unfoldable pub checked_row : ℤ → Bool → Option Bool → Result Done
  checked_row version direction row =
      if direction && is_some row
      then err (already_applied version)
      else if not direction && not (is_some row)
      then err (not_applied version)
      else ok tt

  unfoldable pub apply_body : Migration W → ℤ → Bool → Exec (State W) Results
  unfolding checked_row
  apply_body m version direction =
      if p.cfg.disable_versioning
      then run_migrations p (m ∷ []) (from_bool direction) true
      else find_row version >>= λ row.
          lift (checked_row version direction row)
          >> run_migrations p (m ∷ []) (from_bool direction) true

  unfoldable pub apply_internal : ℤ → Bool → Exec (State W) Results
  apply_internal version direction =
      if ltb_ℤ version (pos 1)
      then fail invalid_version
      else lift (get_migration p version p.migrations) >>= λ m.
          session true (apply_body m version direction)

  unfoldable pub has_pending_body : Exec (State W) Bool
  has_pending_body =
      if p.cfg.disable_versioning
      then pure true
      else on_world (p.store.list_migrations conn) >>= λ rows.
          lift (versions_to_apply max_int64 rows) >>= λ vs. pure (not (is_nil vs))

  unfoldable pub has_pending : Exec (State W) Bool
  has_pending = session false has_pending_body

  -- `UpTo`; `Up` is `UpTo` with math.MaxInt64.
  unfoldable pub if_pending : {A : Type 0} → Exec (State W) A → Exec (State W) A → Exec (State W) A
  if_pending none_left body = has_pending >>= λ b. if b then body else none_left

  unfoldable pub up_to : ℤ → Exec (State W) Results
  unfolding if_pending
  up_to version = if_pending (pure []) (up_internal false version)

  unfoldable pub up : Exec (State W) Results
  unfolding if_pending
  up = if_pending (pure []) (up_internal false max_int64)

  -- Exactly one result, or none for `ErrNoNextVersion`.
  unfoldable pub only_result : Error → Results → Result MigrationResult
  only_result e [] = err e
  only_result e (r ∷ []) = ok r
  only_result e (r ∷ q ∷ rs) = err unexpected_results

  unfoldable pub up_by_one : Exec (State W) MigrationResult
  unfolding if_pending only_result
  up_by_one =
      if_pending (fail no_next_version)
        (up_internal true max_int64 >>= λ rs. lift (only_result no_next_version rs))

  unfoldable pub down : Exec (State W) MigrationResult
  unfolding only_result
  down = down_internal true (pos 0) >>= λ rs. lift (only_result no_next_version rs)

  unfoldable pub down_to : ℤ → Exec (State W) Results
  down_to version =
      if ltb_ℤ version (pos 0) then fail invalid_version else down_internal false version

  unfoldable pub apply_version : ℤ → Bool → Exec (State W) MigrationResult
  unfolding only_result
  apply_version version direction =
      apply_internal version direction >>= λ rs. lift (only_result unexpected_results rs)

  unfoldable pub get_db_version : Exec (State W) ℤ
  get_db_version =
      if p.cfg.disable_versioning
      then fail versioning_disabled
      else with_session p true (λ e. e) (max_version_on_conn p)

  -- The version of the last migration; there is one, or the index is out of range.
  unfoldable pub target_of : List (Migration W) → Result ℤ
  unfolding last_of
  target_of [] = err panicked
  target_of (m ∷ ms) = ok (last_of m ms).version

  -- `GetVersions`: the current version and the target.
  unfoldable pub versions_body : Exec (State W) (ℤ × ℤ)
  unfolding target_of
  versions_body = lift (target_of p.migrations) >>= λ target.
      if p.cfg.disable_versioning
      then pure (negsuc 0, target)
      else (max_version_on_conn p >>= λ current. pure (current, target))

  unfoldable pub get_versions : Exec (State W) (ℤ × ℤ)
  unfolding versions_body
  get_versions = session false versions_body

  unfoldable pub list_sources : List Source
  list_sources = map (source_of p) p.migrations

  unfoldable pub status_of : List (Migration W) → Exec (State W) (List MigrationStatus)
  status_of [] = pure []
  status_of (m ∷ ms) =
      (if p.cfg.disable_versioning then pure none else find_row m.version) >>= λ row.
      status_of ms >>= λ rest.
      pure (record { source = source_of p m; is_applied = is_some row } ∷ rest)

  unfoldable pub status : Exec (State W) (List MigrationStatus)
  status = session true (status_of p.migrations)
