-- ===== src/Legacy/Versions.antt =====
-- migrate.go, up.go and reset.go: what the functions read of the version table.
use pressly_goose_patches.Base.{Bool, true, List, [], ◌∷◌, some, if◌then◌else◌, map}
use pressly_goose_patches.Int.{ℤ, pos}
use pressly_goose_patches.Sort.{sort_by}
use pressly_goose_patches.VersionMap.{VersionMap, has, insert}
use pressly_goose_patches.Outcome.{Error, no_next_version, Result, ok, err, Exec, pure, ◌>>=◌, ◌>>◌}
use pressly_goose_patches.Provider.{db, tx, ListResult, Driver, Store}
use pressly_goose_patches.Provider.Run.{Done}
use pressly_goose_patches.Provider.Session.{joined}
use pressly_goose_patches.Legacy.{made, in_tx}

-- The loop of `EnsureDBVersionContext` over the rows, the latest first.
unfoldable pub current_version : List ListResult → VersionMap Bool → Result ℤ
current_version [] skip = err no_next_version
current_version (m ∷ ms) skip =
    let passed = current_version ms skip in
    let skipped = current_version ms (insert m.version true skip) in
    if has m.version skip then passed else if m.is_applied then ok m.version else skipped

module _ {W : Type 0} (driver : Driver W) (store : Store W) where
  unfoldable pub create_version_table : Exec W Done
  unfolding in_tx
  create_version_table =
      in_tx driver store (made (store.create_version_table tx) >> made (store.insert tx (pos 0)))

  -- The rows, or a new table.
  unfoldable pub after_create : Error → Result Done × W → Result ℤ × W
  after_create e (ok _, w) = (ok (pos 0), w)
  after_create e (err e', w) = (joined e (driver.append_errors (some e) (some e')), w)

  unfoldable pub ensured : Result (List ListResult) × W → Result ℤ × W
  unfolding after_create create_version_table current_version
  ensured (ok rows, w) = (current_version rows [], w)
  ensured (err e, w) = after_create e (create_version_table w)

  unfoldable pub ensure_db_version : Exec W ℤ
  unfolding ensured
  ensure_db_version w = ensured (store.list_migrations db w)

  -- `GetDBVersionContext` gives -1 beside an error, which no caller uses: it is the same here.
  unfoldable pub get_db_version : Exec W ℤ
  unfolding ensure_db_version
  get_db_version = ensure_db_version

  unfoldable pub list_all_db_versions : Exec W (List ℤ)
  list_all_db_versions =
      store.list_migrations db >>= λ rows. pure (sort_by (λ v. v) (map (λ m. m.version) rows))

-- `dbMigrationsStatus`: the latest row of each version.
unfoldable pub latest_status : List ListResult → VersionMap Bool → VersionMap Bool
latest_status [] results = results
latest_status (m ∷ ms) results =
    let passed = latest_status ms results in
    let noted = latest_status ms (insert m.version m.is_applied results) in
    if has m.version results then passed else noted

module _ {W : Type 0} (store : Store W) where
  unfoldable pub db_migrations_status : Exec W (VersionMap Bool)
  unfolding latest_status
  db_migrations_status = store.list_migrations db >>= λ rows. pure (latest_status rows [])
