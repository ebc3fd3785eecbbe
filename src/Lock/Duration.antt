-- ===== src/Lock/Duration.antt =====
-- lock/internal/store/postgres.go: how long an acquired lock keeps others out. The source turns the
-- lease duration into a whole number of seconds, here for durations that a float64 of seconds holds
-- to the nanosecond.
use pressly_goose_patches.Base.{◌≡◌, ℕ, ◌+◌, true, false, Option, none, some, arith, ltb}
use pressly_goose_patches.Int.{ℤ}
use pressly_goose_patches.Text.{Str}
use pressly_goose_patches.Outcome.{Result, ok, err}
use pressly_goose_patches.Lock.{AcquireLockResult, Table, whole_seconds}
use pressly_goose_patches.Lock.Agree.{quiet}
use pressly_goose_patches.Lock.Postgres
use pressly_goose_patches.Lock.Lease.{
  Lease, free, held, acquire, lease_at, IsSoundAt, table_of, granted, succeeded,
}
use pressly_goose_patches.Lock.Refine.{postgres_refines}

acquire-held :
    (i : Str) (d now g : ℕ) (l : Lease)
    → (acquire i d now l).0 ≡ some g
    → (acquire i d now l).1 ≡ held i (now + d)
acquire-held i d now g free h = ground arith
acquire-held i d now g (held j e) h = ground arith

granted-succeeded :
    (r : Result AcquireLockResult) (o : Option ℕ)
    → granted r ≡ o
    → succeeded r ≡ elim o [ none ↦ false | some _ ↦ true ]
granted-succeeded (ok a) o h = ground arith
granted-succeeded (err e) o h = ground arith

-- Where the row of a lock is locked with a holder and a lease or neither: once an instance has acquired
-- the lock, an acquisition by any instance, which may be the same one, after some more time succeeds
-- exactly if that time is more than the whole seconds of the lease duration.
pub lease_length :
    (id : ℤ) (i j : Str) (d e now n g : ℕ) (t : Table)
    → IsSoundAt id t
    → granted (Postgres.acquire_lock id i d (quiet now t)).0 ≡ some g
    → succeeded
        (Postgres.acquire_lock id j e
          (quiet (now + n) (table_of (Postgres.acquire_lock id i d (quiet now t)).1))).0
      ≡ ltb (whole_seconds d) n
lease_length id i j d e now n g t s h =
    let u = table_of (Postgres.acquire_lock id i d (quiet now t)).1 in
    let (a, b, c) = (postgres_refines id i d now t s).0 in
    let k = acquire-held i (whole_seconds d) now g (lease_at id t) (ground arith) in
    let (p, _, _) = (postgres_refines id j e (now + n) u c).0 in
    let q = granted-succeeded _ _ p in ground arith
