-- ===== src/Lock/Mysql.antt =====
-- lock/internal/store/mysql.go: each operation is a transaction of several statements.
use pressly_goose_patches.Base.{
  ℕ, ◌+◌, Bool, true, false, not, ◌&&◌, ◌||◌, List, [], ◌∷◌, Option, none, some, if◌then◌else◌,
  ◌==◌,
}
use pressly_goose_patches.Int.{ℤ, eqb_ℤ}
use pressly_goose_patches.VersionMap.{lookup, insert}
use pressly_goose_patches.Text.{Str, equal}
use pressly_goose_patches.Outcome.{Result, ok, err, Exec, lift, pure, fail, ◌>>=◌, ◌>>◌}
use pressly_goose_patches.Lock.{
  Row, Table, Server, LockStatus, AcquireLockResult, held_by_another, not_held, not_found,
  whole_seconds, db_call, statement, is_free, is_stale, is_locked_by, taken, freed, update_row,
}
use pressly_goose_patches.Lock.Postgres.{acquired_row, status_of}

abbrev Done : Type 0
Done = Unit {0}

unfoldable pub begin : Exec Server Done
unfolding db_call
begin = db_call (λ s. (ok tt, record s { saved = some s.table }))

unfoldable pub commit : Exec Server Done
unfolding db_call
commit = db_call (λ s. (ok tt, record s { saved = none }))

-- `tx.Rollback`: it has no effect once the transaction is committed.
unfoldable pub rollback : Server → Server
rollback s = elim s.saved [ none ↦ s | some t ↦ record s { table = t; saved = none } ]

-- The deferred rollback; its own error is left out.
unfoldable pub rolled_back : {A : Type 0} → Result A × Server → Result A × Server
unfolding rollback
rolled_back (ok a, s) = (ok a, s)
rolled_back (err e, s) = (err e, rollback s)

unfoldable pub in_tx : {A : Type 0} → Exec Server A → Exec Server A
unfolding rolled_back
in_tx body = begin >> λ s. rolled_back (body s)

unfoldable pub same_time : Option ℕ → Option ℕ → Bool
same_time none none = true
same_time none (some n) = false
same_time (some m) none = false
same_time (some m) (some n) = m == n

unfoldable pub same_holder : Option Str → Option Str → Bool
unfolding equal
same_holder none none = true
same_holder none (some t) = false
same_holder (some s) none = false
same_holder (some s) (some t) = equal s t

unfoldable pub same_row : Row → Row → Bool
unfolding same_time same_holder
same_row r r' =
    (if r.locked then r'.locked else not r'.locked)
    && same_time r.locked_at r'.locked_at
    && same_holder r.locked_by r'.locked_by
    && same_time r.lease_expires_at r'.lease_expires_at
    && same_time r.updated_at r'.updated_at

-- `RowsAffected` of an UPDATE, here whether it is not 0, from the row before and the one written. By
-- default the driver counts the rows that change, and not those that are found and stay as they are.
unfoldable pub affected : Option Row → Option Row → Bool
unfolding same_row
affected none written = false
affected (some r) none = false
affected (some r) (some written) = not (same_row r written)

-- INSERT IGNORE
unfoldable pub insert_missing : ℤ → Str → ℕ → ℕ → Option Row → Table → Bool × Table
insert_missing id by lease now none t = (true, insert id (taken now by lease) t)
insert_missing id by lease now (some r) t = (false, t)

unfoldable pub insert_ignore : ℤ → Str → ℕ → ℕ → Table → Bool × Table
unfolding insert_missing
insert_ignore id by lease now t = insert_missing id by lease now (lookup id t) t

-- UPDATE ... WHERE lock_id = ? AND (locked = false OR lease_expires_at < now(6))
unfoldable pub steal : ℤ → Str → ℕ → ℕ → Table → Bool × Table
unfolding update_row is_free affected
steal id by lease now t =
    let (r, t') = update_row id (is_free now) (λ _. taken now by lease) t in
    (affected (lookup id t) r, t')

unfoldable pub select_row : ℤ → ℕ → Table → Option Row × Table
select_row id now t = (lookup id t, t)

unfoldable pub steal_if : Bool → ℤ → Str → ℕ → Exec Server Done
unfolding statement steal
steal_if true id by lease = pure tt
steal_if false id by lease =
    statement (steal id by lease) >>= λ b. if b then pure tt else fail held_by_another

unfoldable pub found_row : Option Row → Exec Server Row
found_row none = fail not_found
found_row (some r) = pure r

unfoldable pub acquire_lock : ℤ → Str → ℕ → Exec Server AcquireLockResult
unfolding in_tx statement insert_ignore steal_if select_row acquired_row found_row begin commit
acquire_lock id by lease = in_tx (
    statement (insert_ignore id by (whole_seconds lease)) >>= λ inserted.
    steal_if inserted id by (whole_seconds lease)
    >> (statement (select_row id) >>= λ o.
        found_row o >>= λ r. commit >> lift (acquired_row by (some r))))

unfoldable pub free_rows : ℤ → Str → ℕ → Table → Bool × Table
unfolding update_row is_locked_by affected
free_rows id by now t =
    let (r, t') = update_row id (is_locked_by by) (λ _. freed now) t in
    (affected (lookup id t) r, t')

unfoldable pub release_lock : ℤ → Str → Exec Server ℤ
unfolding in_tx statement free_rows begin commit
release_lock id by =
    in_tx (statement (free_rows id by) >>= λ b. if b then commit >> pure id else fail not_held)

unfoldable pub extend_rows : ℤ → Str → ℕ → ℕ → Table → Bool × Table
unfolding update_row is_locked_by affected
extend_rows id by lease now t =
    let (r, t') =
      update_row id (λ r. is_locked_by by r && r.locked)
        (λ r. record r { lease_expires_at = some (now + lease); updated_at = some now }) t in
    (affected (lookup id t) r, t')

-- The lease that is read back.
unfoldable pub lease_of : Row → Result ℕ
lease_of r = elim r.lease_expires_at [ none ↦ err not_held | some e ↦ ok e ]

unfoldable pub update_lease : ℤ → Str → ℕ → Exec Server ℕ
unfolding in_tx statement extend_rows select_row lease_of found_row begin commit
update_lease id by lease = in_tx (
    statement (extend_rows id by (whole_seconds lease)) >>= λ b.
    if b
    then (statement (select_row id) >>= λ o.
        found_row o >>= λ r. lift (lease_of r) >>= λ e. commit >> pure e)
    else fail not_held)

unfoldable pub check_lock_status : ℤ → Exec Server LockStatus
unfolding statement select_row status_of
check_lock_status id = statement (select_row id) >>= λ r. lift (status_of r)

-- SELECT lock_id ... WHERE locked = true AND lease_expires_at < now(6) FOR UPDATE
unfoldable pub stale_ids : ℕ → Table → List ℤ
unfolding is_stale
stale_ids now [] = []
stale_ids now ((id, r) ∷ t) =
    let rest = stale_ids now t in if is_stale now r then id ∷ rest else rest

unfoldable pub is_among : ℤ → List ℤ → Bool
is_among id [] = false
is_among id (j ∷ ids) = eqb_ℤ j id || is_among id ids

-- UPDATE ... WHERE lock_id IN (...)
unfoldable pub free_all : List ℤ → ℕ → Table → Table
unfolding is_among
free_all ids now [] = []
free_all ids now ((id, r) ∷ t) = (id, if is_among id ids then freed now else r) ∷ free_all ids now t

unfoldable pub clear_if : List ℤ → Exec Server Done
unfolding statement free_all
clear_if [] = pure tt
clear_if (id ∷ ids) = statement (λ now t. (tt, free_all (id ∷ ids) now t))

unfoldable pub cleanup_stale_locks : Exec Server (List ℤ)
unfolding in_tx statement stale_ids clear_if begin commit
cleanup_stale_locks =
    in_tx (statement (λ now t. (stale_ids now t, t)) >>= λ ids. clear_if ids >> commit >> pure ids)
