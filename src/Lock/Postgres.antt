-- ===== src/Lock/Postgres.antt =====
-- lock/internal/store/postgres.go: each operation is one statement.
use pressly_goose_patches.Base.{ℕ, ◌+◌, ◌&&◌, List, Option, none, some, if◌then◌else◌}
use pressly_goose_patches.Int.{ℤ, eqb_ℤ}
use pressly_goose_patches.VersionMap.{lookup, insert}
use pressly_goose_patches.Text.{Str, equal}
use pressly_goose_patches.Outcome.{Result, ok, err, Exec, lift, ◌>>=◌}
use pressly_goose_patches.Lock.{
  Row, Table, Server, LockStatus, AcquireLockResult, held_by_another, acquired_by_another, not_held,
  not_found, whole_seconds, statement, is_free, is_locked_by, taken, freed, update_row, clear_stale,
}

-- INSERT ... ON CONFLICT (lock_id) DO UPDATE ... WHERE ... RETURNING locked_by, lease_expires_at
unfoldable pub insert_or_update : ℤ → Str → ℕ → ℕ → Option Row → Table → Option Row × Table
insert_or_update id by lease now none t =
    (some (taken now by lease), insert id (taken now by lease) t)
insert_or_update id by lease now (some r) t =
    update_row id (is_free now) (λ _. taken now by lease) t

unfoldable pub upsert : ℤ → Str → ℕ → ℕ → Table → Option Row × Table
unfolding insert_or_update update_row is_free
upsert id by lease now t = insert_or_update id by lease now (lookup id t) t

-- The scanned values, and the check that the row is this instance's.
unfoldable pub checked_holder : Str → Option Str → Option ℕ → Result AcquireLockResult
checked_holder by (some h) (some e) =
    if equal h by
    then ok (record { locked_by = h; lease_expires_at = e })
    else err acquired_by_another
checked_holder by _ _ = err not_found

unfoldable pub acquired_row : Str → Option Row → Result AcquireLockResult
unfolding checked_holder
acquired_row by none = err held_by_another
acquired_row by (some r) = checked_holder by r.locked_by r.lease_expires_at

unfoldable pub acquire_lock : ℤ → Str → ℕ → Exec Server AcquireLockResult
unfolding statement acquired_row
acquire_lock id by lease =
    statement (upsert id by (whole_seconds lease)) >>= λ r. lift (acquired_row by r)

-- UPDATE ... WHERE lock_id = $1 AND locked_by = $2 RETURNING lock_id
unfoldable pub free_row : ℤ → Str → ℕ → Table → Option ℤ × Table
unfolding update_row is_locked_by
free_row id by now t =
    let (r, t') = update_row id (is_locked_by by) (λ _. freed now) t in
    (elim r [ none ↦ none | some _ ↦ some id ], t')

unfoldable pub released_row : ℤ → Option ℤ → Result ℤ
released_row id none = err not_held
released_row id (some id') = if eqb_ℤ id' id then ok id' else err not_held

unfoldable pub release_lock : ℤ → Str → Exec Server ℤ
unfolding statement released_row
release_lock id by = statement (free_row id by) >>= λ r. lift (released_row id r)

-- UPDATE ... WHERE lock_id = $2 AND locked_by = $3 AND locked = true RETURNING lease_expires_at
unfoldable pub extend_row : ℤ → Str → ℕ → ℕ → Table → Option Row × Table
unfolding update_row is_locked_by
extend_row id by lease now =
    update_row id (λ r. is_locked_by by r && r.locked)
      (λ r. record r { lease_expires_at = some (now + lease); updated_at = some now })

unfoldable pub extended_lease : Option Row → Result ℕ
extended_lease none = err not_held
extended_lease (some r) = elim r.lease_expires_at [ none ↦ err not_held | some e ↦ ok e ]

unfoldable pub update_lease : ℤ → Str → ℕ → Exec Server ℕ
unfolding statement extended_lease
update_lease id by lease =
    statement (extend_row id by (whole_seconds lease)) >>= λ r. lift (extended_lease r)

unfoldable pub status_of : Option Row → Result LockStatus
status_of none = err not_found
status_of (some r) = ok (record {
  locked = r.locked;
  locked_by = r.locked_by;
  lease_expires_at = r.lease_expires_at;
  updated_at = r.updated_at;
})

unfoldable pub check_lock_status : ℤ → Exec Server LockStatus
unfolding statement status_of
check_lock_status id = statement (λ now t. (lookup id t, t)) >>= λ r. lift (status_of r)

unfoldable pub cleanup_stale_locks : Exec Server (List ℤ)
unfolding statement
cleanup_stale_locks = statement clear_stale
