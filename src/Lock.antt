-- ===== src/Lock.antt =====
-- lock/internal/store: the rows of the lock table, and the statements that the stores of postgres.go
-- and mysql.go send. A statement is a function of the server's time and of the table, read off the
-- SQL text; times are nanoseconds. Each call of the database first takes the next event: the
-- time that passes, and an error if the call fails, in which case it has no effect.
pub mod Postgres
pub mod Mysql
pub mod Agree
pub mod Lease
pub mod Refine
pub mod Exclusion
pub mod Duration
pub mod Locker
pub mod Balance
pub mod Options
pub mod Session
mod Tests
use pressly_goose_patches.Base.{
  ◌≡◌, refl, ℕ, ◌+◌, ◌*◌, ◌/◌, Bool, true, false, not, ◌&&◌, ◌||◌, List, [], ◌∷◌, Option, none,
  some, ltb, if◌then◌else◌,
}
use pressly_goose_patches.Int.{ℤ}
use pressly_goose_patches.VersionMap.{VersionMap, lookup, insert}
use pressly_goose_patches.Text.{Str, codes, equal}
use pressly_goose_patches.Outcome.{Error, external, Result, ok, err, Exec}

pub record Row : Type 0 where
  pub locked : Bool
  pub locked_at : Option ℕ
  pub locked_by : Option Str
  pub lease_expires_at : Option ℕ
  pub updated_at : Option ℕ

abbrev pub Table : Type 0
Table = VersionMap Row

pub record Event : Type 0 where
  pub elapsed : ℕ
  pub fault : Option Error

-- The table, if it exists; its contents before the transaction that is open; the server's clock.
pub record Server : Type 0 where
  pub table : Option Table
  pub saved : Option (Option Table)
  pub now : ℕ
  pub events : List Event

-- `LockStatus`, `AcquireLockResult`; the other results are a lock ID and a time.
pub record LockStatus : Type 0 where
  pub locked : Bool
  pub locked_by : Option Str
  pub lease_expires_at : Option ℕ
  pub updated_at : Option ℕ

pub record AcquireLockResult : Type 0 where
  pub locked_by : Str
  pub lease_expires_at : ℕ

abbrev pub no_table : Error
no_table = external (codes "table does not exist")

abbrev pub table_is_there : Error
table_is_there = external (codes "table exists already")

abbrev pub held_by_another : Error
held_by_another = external (codes "already held by another instance")

abbrev pub acquired_by_another : Error
acquired_by_another = external (codes "acquired by another instance")

abbrev pub not_held : Error
not_held = external (codes "not held by this instance")

abbrev pub not_found : Error
not_found = external (codes "lock not found")

-- `int(leaseDuration.Seconds())` seconds, as nanoseconds. `Seconds` gives a float64: the division is
-- exact for durations below 2^22 seconds, some 48 days, and longer ones that end within a few
-- nanoseconds of the next second may be rounded up to it there.
unfoldable pub whole_seconds : ℕ → ℕ
whole_seconds d = d / 1000000000 * 1000000000

-- A call of the database.
unfoldable pub called_at :
    {A : Type 0} → (Server → Result A × Server) → List Event → Server → Result A × Server
called_at effect [] s = effect s
called_at effect (e ∷ es) s =
    let s1 = record s { now = s.now + e.elapsed; events = es } in
    elim e.fault [ none ↦ effect s1 | some x ↦ (err x, s1) ]

unfoldable pub db_call : {A : Type 0} → (Server → Result A × Server) → Exec Server A
unfolding called_at
db_call effect s = called_at effect s.events s

unfoldable pub on_table :
    {A : Type 0} → (ℕ → Table → A × Table) → Option Table → Server → Result A × Server
on_table f none s = (err no_table, s)
on_table f (some t) s = let (a, t') = f s.now t in (ok a, record s { table = some t' })

-- A statement on the lock table.
unfoldable pub statement : {A : Type 0} → (ℕ → Table → A × Table) → Exec Server A
unfolding db_call on_table
statement f = db_call (λ s. on_table f s.table s)

-- `lease_expires_at < now()`, which is not true of NULL.
unfoldable pub has_expired : ℕ → Row → Bool
has_expired now r = elim r.lease_expires_at [ none ↦ false | some e ↦ ltb e now ]

-- `locked_by = $n`, which is not true of NULL.
unfoldable pub is_locked_by : Str → Row → Bool
unfolding equal
is_locked_by by r = elim r.locked_by [ none ↦ false | some h ↦ equal h by ]

-- The row that an acquisition writes, and the one that a release writes.
abbrev pub taken : ℕ → Str → ℕ → Row
taken now by lease = record {
  locked = true;
  locked_at = some now;
  locked_by = some by;
  lease_expires_at = some (now + lease);
  updated_at = some now;
}

abbrev pub freed : ℕ → Row
freed now = record {
  locked = false;
  locked_at = none;
  locked_by = none;
  lease_expires_at = none;
  updated_at = some now;
}

-- `locked = false OR lease_expires_at < now()`
unfoldable pub is_free : ℕ → Row → Bool
unfolding has_expired
is_free now r = not r.locked || has_expired now r

-- `locked = true AND lease_expires_at < now()`
unfoldable pub is_stale : ℕ → Row → Bool
unfolding has_expired
is_stale now r = r.locked && has_expired now r

-- An UPDATE of the row with an ID, where a condition holds: the new row, if there is one.
unfoldable pub update_found :
    ℤ → (Row → Bool) → (Row → Row) → Option Row → Table → Option Row × Table
update_found id test change none t = (none, t)
update_found id test change (some r) t =
    if test r then (some (change r), insert id (change r) t) else (none, t)

unfoldable pub update_row : ℤ → (Row → Bool) → (Row → Row) → Table → Option Row × Table
unfolding update_found
update_row id test change t = update_found id test change (lookup id t) t

-- The UPDATE of stale rows, and their IDs.
unfoldable pub clear_stale : ℕ → Table → List ℤ × Table
unfolding is_stale
clear_stale now [] = ([], [])
clear_stale now ((id, r) ∷ t) =
    let (ids, t') = clear_stale now t in
    if is_stale now r then (id ∷ ids, (id, freed now) ∷ t') else (ids, (id, r) ∷ t')

unfoldable pub table_there : Option Table → Bool
table_there none = false
table_there (some t) = true

-- `TableExists`, and `CreateLockTable` with its second look after an error.
unfoldable pub table_exists : Exec Server Bool
unfolding db_call table_there
table_exists = db_call (λ s. (ok (table_there s.table), s))

unfoldable pub create_empty : Option Table → Server → Result (Unit {0}) × Server
create_empty none s = (ok tt, record s { table = some [] })
create_empty (some t) s = (err table_is_there, s)

unfoldable pub checked_again : Error → Result Bool × Server → Result (Unit {0}) × Server
checked_again e (ok true, s) = (ok tt, s)
checked_again e (ok false, s) = (err e, s)
checked_again e (err e', s) = (err e, s)

unfoldable pub after_create : Result (Unit {0}) × Server → Result (Unit {0}) × Server
unfolding checked_again table_exists
after_create (ok _, s) = (ok tt, s)
after_create (err e, s) = checked_again e (table_exists s)

unfoldable pub after_exists : Result Bool × Server → Result (Unit {0}) × Server
unfolding after_create create_empty
after_exists (ok true, s) = (ok tt, s)
after_exists (ok false, s) = after_create (db_call (λ s. create_empty s.table s) s)
after_exists (err e, s) = (err e, s)

unfoldable pub create_lock_table : Exec Server (Unit {0})
unfolding after_exists table_exists
create_lock_table s = after_exists (table_exists s)
