-- ===== src/Provider/Unlocked.antt =====
-- The methods of provider.go leave the mutex of the provider as they find it.
use pressly_goose_patches.Base.{
  refl, not, Bool, true, false, List, [], ◌∷◌, none, if◌then◌else◌, is_nil,
}
use pressly_goose_patches.Int.{ℤ, eqb_ℤ, ltb_ℤ, pos}
use pressly_goose_patches.SqlParser.{direction_up, direction_down, from_bool}
use pressly_goose_patches.Outcome.{
  Result, ok, err, Exec, pure, fail, lift, failed_to_initialize, no_next_version,
  versioning_disabled, by_one_without_versioning, invalid_version, missing_zero_version,
}
use pressly_goose_patches.Provider.{conn, Migration, Provider, State, ListResult}
use pressly_goose_patches.Provider.Run.{on_world}
use pressly_goose_patches.Provider.Batch.{get_migration, max_version_on_conn}
use pressly_goose_patches.Provider.Methods
use pressly_goose_patches.Provider.Methods.{
  MigrationStatus, max_int64, get_migrations, versions_to_apply, migrations_to_apply, up_body,
  up_internal, last_of, down_unversioned, rows_above, down_rows, down_body, down_internal, find_row,
  checked_row, apply_body, apply_internal, has_pending_body, has_pending, if_pending, up_to, up,
  only_result, up_by_one, down, down_to, apply_version, get_db_version, target_of, versions_body,
  get_versions, status_of, status,
}
use pressly_goose_patches.Provider.Mutex.{
  IsBalanced, then-IsBalanced, if-IsBalanced, max_version-IsBalanced, run_migrations-IsBalanced,
}
use pressly_goose_patches.Provider.Release.{RetriesBalanced, with_session-IsBalanced}

module _ {W : Type 0} (p : Provider W) (retries : RetriesBalanced p) where
  fixed-IsBalanced : {A : Type 0} (r : Result A) → IsBalanced p (lift r)
  fixed-IsBalanced r = record { at = λ s. refl }

  session-IsBalanced :
      {A : Type 0} (use_locker : Bool) (m : Exec (State W) A)
      → IsBalanced p m
      → IsBalanced p (Methods.session p use_locker m)
  session-IsBalanced use_locker m k =
      with_session-IsBalanced p retries use_locker failed_to_initialize m k

  to_apply-IsBalanced :
      (version : ℤ) (rows : List ListResult) → IsBalanced p (migrations_to_apply p version rows)
  unfolding migrations_to_apply
  to_apply-IsBalanced version [] = record { at = λ s. refl }
  to_apply-IsBalanced version (row ∷ rows) =
      then-IsBalanced p (lift (versions_to_apply p version (row ∷ rows)))
        (λ vs. lift (get_migrations p vs)) (fixed-IsBalanced _) (λ vs. fixed-IsBalanced _)

  listed-IsBalanced : IsBalanced p (on_world (p.store.list_migrations conn))
  listed-IsBalanced = record { at = λ s. refl }

  up_body-IsBalanced : (by_one : Bool) (version : ℤ) → IsBalanced p (up_body p by_one version)
  unfolding up_body
  up_body-IsBalanced by_one version =
      if-IsBalanced p (is_nil p.migrations) _ _ (fixed-IsBalanced (ok [])) (
        if-IsBalanced p p.cfg.disable_versioning _ _
          (if-IsBalanced p by_one _ _ (fixed-IsBalanced (err by_one_without_versioning))
            (run_migrations-IsBalanced p p.migrations direction_up by_one))
          (then-IsBalanced p (on_world (p.store.list_migrations conn)) _ listed-IsBalanced (λ rows.
            then-IsBalanced p (migrations_to_apply p version rows) _
              (to_apply-IsBalanced version rows)
              (λ apply. run_migrations-IsBalanced p apply direction_up by_one))))

  up_internal-IsBalanced :
      (by_one : Bool) (version : ℤ) → IsBalanced p (up_internal p by_one version)
  unfolding up_internal
  up_internal-IsBalanced by_one version =
      if-IsBalanced p (ltb_ℤ version (pos 1)) _ _ (fixed-IsBalanced (err invalid_version))
        (session-IsBalanced true (up_body p by_one version) (up_body-IsBalanced by_one version))

  has_pending_body-IsBalanced : IsBalanced p (has_pending_body p)
  unfolding has_pending_body
  has_pending_body-IsBalanced =
      if-IsBalanced p p.cfg.disable_versioning _ _ (fixed-IsBalanced (ok true)) (
        then-IsBalanced p (on_world (p.store.list_migrations conn)) _ listed-IsBalanced (λ rows.
          then-IsBalanced p (lift (versions_to_apply p max_int64 rows)) _ (fixed-IsBalanced _)
            (λ vs. fixed-IsBalanced (ok (not (is_nil vs))))))

  has_pending-IsBalanced : IsBalanced p (has_pending p)
  unfolding has_pending
  has_pending-IsBalanced = session-IsBalanced false (has_pending_body p) has_pending_body-IsBalanced

  if_pending-IsBalanced :
      {A : Type 0} (m n : Exec (State W) A)
      → IsBalanced p m
      → IsBalanced p n
      → IsBalanced p (if_pending p m n)
  unfolding if_pending
  if_pending-IsBalanced m n h k =
      then-IsBalanced p (has_pending p) _ has_pending-IsBalanced (λ b. if-IsBalanced p b n m k h)

  unversioned-IsBalanced :
      (by_one : Bool) (ms : List (Migration W)) → IsBalanced p (down_unversioned p by_one ms)
  unfolding down_unversioned
  unversioned-IsBalanced by_one [] = fixed-IsBalanced (ok [])
  unversioned-IsBalanced by_one (m ∷ ms) =
      run_migrations-IsBalanced p (if by_one then last_of p m ms ∷ [] else m ∷ ms) direction_down
        by_one

  down_rows-IsBalanced :
      (by_one : Bool) (version : ℤ) (rows : List ListResult)
      → IsBalanced p (down_rows p by_one version rows)
  unfolding down_rows
  down_rows-IsBalanced by_one version [] = fixed-IsBalanced (err missing_zero_version)
  down_rows-IsBalanced by_one version (row ∷ rows) =
      if-IsBalanced p (eqb_ℤ row.version (pos 0)) _ _ (fixed-IsBalanced (ok [])) (
        then-IsBalanced p (lift (get_migrations p (rows_above p version (row ∷ rows)))) _
          (fixed-IsBalanced _) (λ apply. run_migrations-IsBalanced p apply direction_down by_one))

  down_internal-IsBalanced :
      (by_one : Bool) (version : ℤ) → IsBalanced p (down_internal p by_one version)
  unfolding down_internal down_body
  down_internal-IsBalanced by_one version = session-IsBalanced true (down_body p by_one version) (
      if-IsBalanced p (is_nil p.migrations) _ _ (fixed-IsBalanced (ok [])) (
        if-IsBalanced p p.cfg.disable_versioning _ _ (unversioned-IsBalanced by_one p.migrations) (
          then-IsBalanced p (on_world (p.store.list_migrations conn)) _ listed-IsBalanced
            (λ rows. down_rows-IsBalanced by_one version rows))))

  find_row-IsBalanced : (version : ℤ) → IsBalanced p (find_row p version)
  unfolding find_row
  find_row-IsBalanced version = record { at = λ s. refl }

  apply_internal-IsBalanced :
      (version : ℤ) (direction : Bool) → IsBalanced p (apply_internal p version direction)
  unfolding apply_internal apply_body
  apply_internal-IsBalanced version direction =
      if-IsBalanced p (ltb_ℤ version (pos 1)) _ _ (fixed-IsBalanced (err invalid_version)) (
        then-IsBalanced p (lift (get_migration p version p.migrations)) _ (fixed-IsBalanced _) (λ m.
          let run = run_migrations-IsBalanced p (m ∷ []) (from_bool direction) true in
          session-IsBalanced true (apply_body p m version direction) (
            if-IsBalanced p p.cfg.disable_versioning _ _ run (
              then-IsBalanced p (find_row p version) _ (find_row-IsBalanced version) (λ row.
                then-IsBalanced p (lift (checked_row p version direction row)) _
                  (fixed-IsBalanced _) (λ _. run))))))

  status_of-IsBalanced : (ms : List (Migration W)) → IsBalanced p (status_of p ms)
  unfolding status_of
  status_of-IsBalanced [] = fixed-IsBalanced (ok [])
  status_of-IsBalanced (m ∷ ms) =
      then-IsBalanced p (if p.cfg.disable_versioning then pure none else find_row p m.version) _
        (if-IsBalanced p p.cfg.disable_versioning _ _ (fixed-IsBalanced (ok none))
          (find_row-IsBalanced m.version))
        (λ row.
          then-IsBalanced p (status_of p ms) _ (status_of-IsBalanced ms)
            (λ rest. fixed-IsBalanced _))

  versions-IsBalanced : IsBalanced p (versions_body p)
  unfolding versions_body
  versions-IsBalanced =
      then-IsBalanced p (lift (target_of p p.migrations)) _ (fixed-IsBalanced _) (λ target.
        if-IsBalanced p p.cfg.disable_versioning _ _ (fixed-IsBalanced _) (
          then-IsBalanced p (max_version_on_conn p) _ (max_version-IsBalanced p)
            (λ current. fixed-IsBalanced _)))

  -- Every method returns, with success or with an error, with the mutex of the provider locked as
  -- often as before the call, for retries that leave the mutex as the retried function leaves it.
  pub methods-IsBalanced :
      (version : ℤ) (direction : Bool)
      → IsBalanced p (up p)
        × IsBalanced p (up_to p version)
        × IsBalanced p (up_by_one p)
        × IsBalanced p (down p)
        × IsBalanced p (down_to p version)
        × IsBalanced p (apply_version p version direction)
        × IsBalanced p (has_pending p)
        × IsBalanced p (get_db_version p)
        × IsBalanced p (get_versions p)
        × IsBalanced p (status p)
  unfolding up up_to up_by_one down down_to apply_version get_db_version get_versions status
  methods-IsBalanced version direction = (
    if_pending-IsBalanced (pure []) _ (fixed-IsBalanced (ok []))
        (up_internal-IsBalanced false max_int64),
    if_pending-IsBalanced (pure []) _ (fixed-IsBalanced (ok []))
        (up_internal-IsBalanced false version),
    if_pending-IsBalanced (fail no_next_version) _ (fixed-IsBalanced (err no_next_version)) (
        then-IsBalanced p (up_internal p true max_int64) _ (up_internal-IsBalanced true max_int64)
          (λ rs. fixed-IsBalanced _)),
    then-IsBalanced p (down_internal p true (pos 0)) _ (down_internal-IsBalanced true (pos 0))
        (λ rs. fixed-IsBalanced _),
    if-IsBalanced p (ltb_ℤ version (pos 0)) _ _ (fixed-IsBalanced (err invalid_version))
        (down_internal-IsBalanced false version),
    then-IsBalanced p (apply_internal p version direction) _
        (apply_internal-IsBalanced version direction) (λ rs. fixed-IsBalanced _),
    has_pending-IsBalanced,
    if-IsBalanced p p.cfg.disable_versioning _ _ (fixed-IsBalanced (err versioning_disabled)) (
        with_session-IsBalanced p retries true (λ e. e) (max_version_on_conn p)
          (max_version-IsBalanced p)),
    session-IsBalanced false (versions_body p) versions-IsBalanced,
    session-IsBalanced true (status_of p p.migrations) (status_of-IsBalanced p.migrations),
  )
