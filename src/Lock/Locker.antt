-- ===== src/Lock/Locker.antt =====
-- lock/internal/table/locker.go: the locker over a table, its mutex and its heartbeat. The store is the
-- interface `LockStore` of lock/internal/store/store.go, and `retry.Do` is a parameter.
use pressly_goose_patches.Base.{
  ℕ, suc, ◌-◌, Bool, true, false, List, ◌++◌, Option, none, some, if◌then◌else◌, is_nil,
}
use pressly_goose_patches.Int.{ℤ, pos_part}
use pressly_goose_patches.Text.{Str, codes}
use pressly_goose_patches.Outcome.{Error, Result, ok, err, Exec}
use pressly_goose_patches.Provider.{Attempt, done, retryable, given_up}
use pressly_goose_patches.Lock.{
  Server, LockStatus, AcquireLockResult, table_exists, create_lock_table,
}
use pressly_goose_patches.Lock.Options.{TableConfig}
use pressly_goose_patches.Lock.Session.{RetryDo}
use pressly_goose_patches.Lock.Postgres
use pressly_goose_patches.Lock.Mysql

-- `store.LockStore`
pub record LockStore (W : Type 0) : Type 0 where
  pub create_lock_table : Exec W (Unit {0})
  pub table_exists : Exec W Bool
  pub acquire_lock : ℤ → Str → ℕ → Exec W AcquireLockResult
  pub release_lock : ℤ → Str → Exec W ℤ
  pub update_lease : ℤ → Str → ℕ → Exec W ℕ
  pub check_lock_status : ℤ → Exec W LockStatus
  pub cleanup_stale_locks : Exec W (List ℤ)

abbrev pub postgres_store : LockStore Server
postgres_store = record {
  create_lock_table = create_lock_table;
  table_exists = table_exists;
  acquire_lock = Postgres.acquire_lock;
  release_lock = Postgres.release_lock;
  update_lease = Postgres.update_lease;
  check_lock_status = Postgres.check_lock_status;
  cleanup_stale_locks = Postgres.cleanup_stale_locks;
}

abbrev pub mysql_store : LockStore Server
mysql_store = record {
  create_lock_table = create_lock_table;
  table_exists = table_exists;
  acquire_lock = Mysql.acquire_lock;
  release_lock = Mysql.release_lock;
  update_lease = Mysql.update_lease;
  check_lock_status = Mysql.check_lock_status;
  cleanup_stale_locks = Mysql.cleanup_stale_locks;
}

-- `cmp.Or(hostname, "unknown-hostname")`, and the identifier; the process ID and the random bytes are
-- texts here.
unfoldable pub instance_id : Str → Str → Str → Str
instance_id hostname pid bytes =
    let dash = codes "-" in
    (if is_nil hostname then codes "unknown-hostname" else hostname) ++ dash ++ pid ++ dash ++ bytes

-- The fields of `Locker` that do not change, as `New` fills them; the two backoffs are in the form of
-- `retry.Do` with each of them.
pub record TableLocker (W : Type 0) : Type 0 where
  pub store : LockStore W
  pub lock_id : ℤ
  pub instance : Str
  pub lease_duration : ℕ
  pub retry_policy : Option (Error → Bool)

-- The world, how often the mutex is locked, and whether a heartbeat runs.
pub record Held (W : Type 0) : Type 0 where
  pub world : W
  pub holders : ℕ
  pub heartbeat : Bool

unfoldable pub new_locker :
    {W : Type 0} → LockStore W → TableConfig → Str → Str → Str → TableLocker W
unfolding instance_id
new_locker store c hostname pid bytes = record {
  store = store;
  lock_id = c.lock_id;
  instance = instance_id hostname pid bytes;
  lease_duration = pos_part c.lease_duration;
  retry_policy = c.retry_policy;
}

module _ {W : Type 0} (l : TableLocker W) where
  unfoldable pub should_retry : Error → Bool
  should_retry e = elim l.retry_policy [ none ↦ true | some policy ↦ policy e ]

  unfoldable pub retry_if : Bool → Error → Attempt
  retry_if b e = if b then retryable e else given_up e

  -- The call of `CleanupStaleLocks` before a retry, whose error is only logged.
  unfoldable pub acquired_or : Result AcquireLockResult × W → Attempt × W
  unfolding should_retry retry_if
  acquired_or (ok _, w) = (done, w)
  acquired_or (err e, w) = (retry_if (should_retry e) e, (l.store.cleanup_stale_locks w).1)

  unfoldable pub acquire_attempt : W → Attempt × W
  unfolding acquired_or
  acquire_attempt w = acquired_or (l.store.acquire_lock l.lock_id l.instance l.lease_duration w)

  unfoldable pub released_or : Result ℤ × W → Attempt × W
  unfolding should_retry retry_if
  released_or (ok _, w) = (done, w)
  released_or (err e, w) = (retry_if (should_retry e) e, w)

  unfoldable pub release_attempt : W → Attempt × W
  unfolding released_or
  release_attempt w = released_or (l.store.release_lock l.lock_id l.instance w)

  unfoldable pub stop_heartbeat : Held W → Held W
  stop_heartbeat s = record s { heartbeat = false }

  unfoldable pub start_heartbeat : Held W → Held W
  unfolding stop_heartbeat
  start_heartbeat s = let s1 = stop_heartbeat s in record s1 { heartbeat = true }

  -- One tick of the heartbeat's loop, whose errors are only logged.
  unfoldable pub heartbeat_tick : Held W → Held W
  heartbeat_tick s =
      if s.heartbeat
      then record s {
        world = (l.store.update_lease l.lock_id l.instance l.lease_duration s.world).1;
      }
      else s

  unfoldable pub after_acquire : Held W → Result (Unit {0}) × W → Result (Unit {0}) × Held W
  unfolding start_heartbeat
  after_acquire s (ok _, w) = (ok tt, start_heartbeat (record s { world = w }))
  after_acquire s (err e, w) = (err e, record s { world = w; holders = s.holders - 1 })

  unfoldable pub after_create :
      RetryDo W → Held W → Result (Unit {0}) × W → Result (Unit {0}) × Held W
  unfolding after_acquire acquire_attempt
  after_create retry_lock s (ok _, w) = after_acquire s (retry_lock acquire_attempt w)
  after_create retry_lock s (err e, w) = (err e, record s { world = w; holders = s.holders - 1 })

  -- `Locker.Lock`
  unfoldable pub lock : RetryDo W → Exec (Held W) (Unit {0})
  unfolding after_create
  lock retry_lock s =
      let s1 = record s { holders = suc s.holders } in
      after_create retry_lock s1 (l.store.create_lock_table s.world)

  -- `Locker.Unlock`, with its deferred unlock of the mutex
  unfoldable pub unlock : RetryDo W → Exec (Held W) (Unit {0})
  unfolding stop_heartbeat release_attempt
  unlock retry_unlock s =
      let s1 = stop_heartbeat s in
      let (r, w) = retry_unlock release_attempt s1.world in
      (r, record s1 { world = w; holders = s1.holders - 1 })
