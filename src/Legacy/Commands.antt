-- ===== src/Legacy/Commands.antt =====
-- up.go, down.go, reset.go, redo.go, version.go and status.go, over `CollectMigrations` by its two bounds.
-- What is only logged is left out.
use pressly_goose_patches.Base.{
  ℕ, zero, suc, ◌-◌, ◌^◌, Bool, true, false, not, ◌&&◌, List, [], ◌∷◌, ◌++◌, Option, none, some,
  if◌then◌else◌, is_nil, reverse,
}
use pressly_goose_patches.Int.{ℤ, pos, negsuc, ltb_ℤ, leb_ℤ, eqb_ℤ}
use pressly_goose_patches.Sort.{sort_by}
use pressly_goose_patches.VersionMap.{VersionMap, has, lookup, insert}
use pressly_goose_patches.Outcome.{
  external, panicked, no_next_version, Result, ok, err, Exec, pure, fail, lift, ◌>>=◌, ◌>>◌,
}
use pressly_goose_patches.Text.{codes}
use pressly_goose_patches.Provider.{Driver, Store}
use pressly_goose_patches.Provider.Run.{Done}
use pressly_goose_patches.Legacy.{LegacyMigration, run}
use pressly_goose_patches.Legacy.Files.{current_of, last_of}
use pressly_goose_patches.Legacy.Versions.{
  ensure_db_version, get_db_version, list_all_db_versions, db_migrations_status,
}

-- `options`
pub record Options : Type 0 where
  pub allow_missing : Bool
  pub apply_up_by_one : Bool
  pub no_versioning : Bool

abbrev pub min_version : ℤ
min_version = pos 0

abbrev pub max_version : ℤ
max_version = pos (2 ^ 63 - 1)

-- v - 1 of an int64 that is not the least one
abbrev pub pred : ℤ → ℤ
pred (pos zero) = negsuc 0
pred (pos (suc n)) = pos n
pred (negsuc n) = negsuc (suc n)

-- `lookupAppliedInDB`, and `existing` of `findMissingMigrations`
unfoldable pub applied_of : List ℤ → VersionMap Bool → VersionMap Bool
applied_of [] m = m
applied_of (v ∷ vs) m = applied_of vs (insert v true m)

-- `dbMigrations[len(dbMigrations)-1].Version`, which panics on no rows
unfoldable pub last_version : List ℤ → Result ℤ
last_version [] = err panicked
last_version (v ∷ []) = ok v
last_version (v ∷ w ∷ vs) = last_version (w ∷ vs)

module _ {W : Type 0} where
  -- The loop of `findMissingMigrations`.
  unfoldable pub missing_of :
      VersionMap Bool → ℤ → List (LegacyMigration W) → List (LegacyMigration W)
  missing_of existing max [] = []
  missing_of existing max (m ∷ ms) =
      let rest = missing_of existing max ms in
      if not (has m.version existing) && ltb_ℤ m.version max then m ∷ rest else rest

  unfoldable pub find_missing_migrations :
      List ℤ → List (LegacyMigration W) → ℤ → List (LegacyMigration W)
  unfolding missing_of applied_of
  find_missing_migrations known new max =
      sort_by (λ m. m.version) (missing_of (applied_of known []) max new)

  -- The filter of the new migrations.
  unfoldable pub new_of :
      VersionMap Bool → ℤ → ℤ → List (LegacyMigration W) → List (LegacyMigration W)
  new_of applied max version [] = []
  new_of applied max version (m ∷ ms) =
      let rest = new_of applied max version ms in
      if has m.version applied
      then rest
      else if ltb_ℤ max m.version && leb_ℤ m.version version
      then m ∷ rest
      else rest

  -- What `UpToContext` applies, from the versions of the database in ascending order, the last of
  -- them, and the migrations found.
  unfoldable pub migrations_to_apply :
      Bool → List ℤ → ℤ → ℤ → List (LegacyMigration W) → Result (List (LegacyMigration W))
  unfolding find_missing_migrations new_of applied_of
  migrations_to_apply allow_missing known max version found =
      let missing = find_missing_migrations known found max in
      if not (is_nil missing) && not allow_missing
      then err (external (codes "missing migrations"))
      else ok (
          (if allow_missing then missing else []) ++ new_of (applied_of known []) max version found)

module _ {W : Type 0} (driver : Driver W) (store : Store W)
    (collect : ℤ → ℤ → Result (List (LegacyMigration W))) where
  abbrev pub up_one : LegacyMigration W → Exec W Done
  up_one m = run driver store m true

  abbrev pub down_one : LegacyMigration W → Exec W Done
  down_one m = run driver store m false

  abbrev pub unversioned : LegacyMigration W → LegacyMigration W
  unversioned m = record m { no_versioning = true }

  unfoldable pub up_all : Bool → List (LegacyMigration W) → Exec W Done
  up_all by_one [] = if by_one then fail no_next_version else pure tt
  up_all by_one (m ∷ ms) =
      let rest = up_all by_one ms in up_one m >> (if by_one then pure tt else rest)

  -- The current version is read, for the log, where there is nothing to apply.
  unfoldable pub apply_or_read : Bool → List (LegacyMigration W) → Exec W Done
  unfolding up_all
  apply_or_read by_one [] = get_db_version driver store >> up_all by_one []
  apply_or_read by_one (m ∷ ms) = up_all by_one (m ∷ ms)

  unfoldable pub up_to_no_versioning : List (LegacyMigration W) → ℤ → Exec W Done
  up_to_no_versioning [] version = pure tt
  up_to_no_versioning (m ∷ ms) version =
      let rest = up_to_no_versioning ms version in
      if ltb_ℤ version m.version then pure tt else up_one (unversioned m) >> rest

  first_or : Bool → ℤ → List (LegacyMigration W) → ℤ
  first_or by_one version [] = version
  first_or by_one version (m ∷ ms) = if by_one then m.version else version

  unfoldable pub up_versioned : Options → ℤ → List (LegacyMigration W) → Exec W Done
  unfolding apply_or_read last_version migrations_to_apply
  up_versioned o version found =
      ensure_db_version driver store >> list_all_db_versions driver store >>= λ known.
      lift (last_version known) >>= λ max.
      lift (migrations_to_apply o.allow_missing known max version found) >>= λ ms.
      apply_or_read o.apply_up_by_one ms

  -- `UpToContext`; `UpContext` and `UpByOneContext` go up to the largest version.
  unfoldable pub up_to : Options → ℤ → Exec W Done
  unfolding up_versioned up_to_no_versioning first_or
  up_to o version = lift (collect min_version version) >>= λ found.
      if o.no_versioning
      then up_to_no_versioning found (first_or o.apply_up_by_one version found)
      else up_versioned o version found

  -- The loop of `downToNoVersioning`, from the last migration back.
  down_all_to : ℤ → List (LegacyMigration W) → Exec W Done
  down_all_to version [] = pure tt
  down_all_to version (m ∷ ms) =
      let rest = down_all_to version ms in
      if leb_ℤ m.version version then pure tt else down_one (unversioned m) >> rest

  unfoldable pub down_to_no_versioning : List (LegacyMigration W) → ℤ → Exec W Done
  unfolding down_all_to
  down_to_no_versioning ms version = down_all_to version (reverse ms)

  down_last : List (LegacyMigration W) → Result (LegacyMigration W) → Exec W Done
  unfolding down_to_no_versioning
  down_last ms (err e) = pure tt
  down_last ms (ok m) = down_to_no_versioning ms (pred m.version)

  -- `DownContext`
  unfoldable pub down : Options → Exec W Done
  unfolding down_last last_of current_of
  down o = lift (collect min_version max_version) >>= λ ms.
      if o.no_versioning
      then down_last ms (last_of ms)
      else (get_db_version driver store >>= λ v. lift (current_of v ms) >>= down_one)

  -- One round of the loop of `DownToContext`: whether it ends, or the world after a migration.
  unfoldable pub down_round : ℤ → List (LegacyMigration W) → Exec W Bool
  unfolding current_of
  down_round version ms = get_db_version driver store >>= λ v.
      if eqb_ℤ v (pos 0)
      then pure true
      else (lift (current_of v ms) >>= λ m.
          if leb_ℤ m.version version then pure true else (down_one m >> pure false))

  -- The loop, on fuel.
  unfoldable pub down_rounds : ℕ → ℤ → List (LegacyMigration W) → W → Option (Result Done × W)
  down_rounds zero version ms w = none
  down_rounds (suc n) version ms w = elim (down_round version ms w).0 [
    | err e ↦ some (err e, (down_round version ms w).1)
    | ok b ↦
        if b
        then some (ok tt, (down_round version ms w).1)
        else down_rounds n version ms (down_round version ms w).1
  ]

  unfoldable pub rounds_after :
      ℕ → ℤ → Result (List (LegacyMigration W)) → W → Option (Result Done × W)
  rounds_after n version (err e) w = some (err e, w)
  rounds_after n version (ok ms) w = down_rounds n version ms w

  -- `DownToContext`
  unfoldable pub down_to : ℕ → Options → ℤ → W → Option (Result Done × W)
  unfolding rounds_after down_rounds down_to_no_versioning
  down_to n o version w =
      if o.no_versioning
      then some
          ((lift (collect min_version max_version) >>= λ ms. down_to_no_versioning ms version) w)
      else rounds_after n version (collect min_version max_version) w

  -- `ResetContext`, where versions are recorded.
  unfoldable pub reset_all : VersionMap Bool → List (LegacyMigration W) → Exec W Done
  reset_all statuses [] = pure tt
  reset_all statuses (m ∷ ms) =
      let rest = reset_all statuses ms in
      if elim (lookup m.version statuses) [ none ↦ false | some b ↦ b ]
      then down_one m >> rest
      else rest

  unfoldable pub reset : Options → Exec W Done
  unfolding reset_all down_to_no_versioning
  reset o = lift (collect min_version max_version) >>= λ ms.
      if o.no_versioning
      then (lift (collect min_version max_version) >>= λ ns. down_to_no_versioning ns min_version)
      else (db_migrations_status store >>= λ statuses. reset_all statuses (reverse ms))

  redo_one : Bool → LegacyMigration W → Exec W Done
  redo_one no_versioning m =
      let n = record m { no_versioning = no_versioning } in down_one n >> up_one n

  redo_last : List (LegacyMigration W) → Result (LegacyMigration W) → Exec W Done
  unfolding redo_one
  redo_last ms (err e) = pure tt
  redo_last ms (ok m) = lift (current_of m.version ms) >>= redo_one true

  -- `RedoContext`
  unfoldable pub redo : Options → Exec W Done
  unfolding redo_one redo_last last_of current_of
  redo o = lift (collect min_version max_version) >>= λ ms.
      if o.no_versioning
      then redo_last ms (last_of ms)
      else (get_db_version driver store >>= λ v. lift (current_of v ms) >>= redo_one false)

  version_of_last : Result (LegacyMigration W) → ℤ
  version_of_last (err e) = pos 0
  version_of_last (ok m) = m.version

  -- The version that `VersionContext` logs.
  unfoldable pub version : Options → Exec W ℤ
  unfolding version_of_last last_of
  version o =
      if o.no_versioning
      then (lift (collect min_version max_version) >>= λ ms. pure (version_of_last (last_of ms)))
      else get_db_version driver store
