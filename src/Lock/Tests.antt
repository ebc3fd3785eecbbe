-- ===== src/Lock/Tests.antt =====
-- The theorems of the locks at small tables.
use pressly_goose_patches.Base.{
  ◌≡◌, refl, ℕ, suc, ◌+◌, ◌-◌, Bool, true, false, List, [], ◌∷◌, none, some, arith, ltb,
}
use pressly_goose_patches.Int.{ℤ, pos, eqb_ℤ, leb_ℤ}
use pressly_goose_patches.VersionMap.{lookup, insert}
use pressly_goose_patches.Text.{Str, codes, equal}
use pressly_goose_patches.Outcome.{Result, ok, err, Exec}
use pressly_goose_patches.Provider.{Attempt, done, retryable, given_up}
use pressly_goose_patches.Lock.{
  Row, Table, Event, Server, AcquireLockResult, whole_seconds, called_at, db_call, on_table,
  statement, has_expired, is_locked_by, is_free, is_stale, update_found, update_row, clear_stale,
  taken, freed, create_lock_table, table_exists, table_there, create_empty, after_exists,
  held_by_another, not_held,
}
use pressly_goose_patches.Lock
use pressly_goose_patches.Lock.Postgres
use pressly_goose_patches.Lock.Mysql
use pressly_goose_patches.Lock.Agree.{quiet}
use pressly_goose_patches.Lock.Lease.{IsSoundAt, taken-IsSound, table_of, succeeded}
use pressly_goose_patches.Lock.Refine.{
  only-IsSound, Acquires, Renews, Releases, Cleans, postgres_refines,
}
use pressly_goose_patches.Lock.Exclusion.{
  Move, pass, take, beat, noted, move, history, after, history_exclusion,
}
use pressly_goose_patches.Lock.Duration.{lease_length}
use pressly_goose_patches.Lock.Options.{
  TableLockerOption, TableConfig, with_table_name, with_table_lock_timeout, default_config,
  probe_of, apply, apply_all, table_locker_config, new_table_locker, IsValid,
  new_table_locker-IsValid,
}
use pressly_goose_patches.Lock.Session.{
  SessionConfig, SessionLockerOption, with_lock_id, with_lock_timeout, seconds, session_probe,
  with_session_probe, apply_session, apply_sessions, new_session_locker, IsTimed,
  new_session_locker-IsTimed, RetryDo, EndsDone, RetriesToDone, advisory, session_lock,
  session_unlock, session_lock-granted, session_unlock-released, Retried, Answered,
}
use pressly_goose_patches.Lock.Locker.{
  TableLocker, Held, lock, unlock, postgres_store, acquired_or, acquire_attempt, start_heartbeat,
  stop_heartbeat, after_acquire, after_create,
}
use pressly_goose_patches.Lock.Balance.{IsLocked, lock_balance, lock-taken}

abbrev ann : Str
ann = codes "ann"

abbrev bob : Str
bob = codes "bob"

abbrev of_ann : Row
of_ann = taken 5 ann 2000000000

abbrev locked_table : Table
locked_table = (pos 7, of_ann) ∷ (pos 8, freed 3) ∷ []

locked_table-IsSoundAt : IsSoundAt (pos 7) locked_table
unfolding lookup eqb_ℤ
locked_table-IsSoundAt =
    only-IsSound (pos 7) locked_table of_ann refl (taken-IsSound 5 ann 2000000000)

-- Ann renews her lease at the time at which she took the lock. The store of mysql.go gives an error,
-- since the row does not change, and that of postgres.go gives the lease.
renewed_at_once :
    ((Mysql.update_lease (pos 7) ann 2000000000 (quiet 5 locked_table)).0 ≡ err not_held)
    × ((Postgres.update_lease (pos 7) ann 2000000000 (quiet 5 locked_table)).0 ≡ ok 2000000005)
unfolding Mysql.update_lease Postgres.update_lease Mysql.in_tx Mysql.begin Mysql.commit statement
    db_call called_at on_table Mysql.extend_rows Mysql.affected Mysql.same_row Mysql.same_time
    Mysql.same_holder Mysql.rolled_back Mysql.rollback update_row update_found Postgres.extend_row
    Postgres.extended_lease lookup insert eqb_ℤ is_locked_by equal whole_seconds
renewed_at_once = (refl, refl)

postgres_refines_example :
    Acquires (pos 7) bob 3000000000 2000000006 locked_table
    × Renews (pos 7) bob 3000000000 2000000006 locked_table
    × Releases (pos 7) bob 3000000000 2000000006 locked_table
    × Cleans (pos 7) 2000000006 locked_table
postgres_refines_example =
    postgres_refines (pos 7) bob 3000000000 2000000006 locked_table locked_table-IsSoundAt

-- Ann's lease runs out, Bob takes the lock, and Ann's renewal and her release fail.
abbrev contest : List Move
contest =
    take ann 2000000000
    ∷ pass 2000000006
    ∷ take bob 3000000000
    ∷ beat ann 2000000000
    ∷ take ann 2000000000
    ∷ []

contest-bob : (after (pos 7) 0 [] contest).leases bob ≡ some 5000000006
unfolding history move noted equal Postgres.acquire_lock Postgres.update_lease statement db_call
    called_at on_table Postgres.upsert Postgres.insert_or_update lookup insert update_row
    update_found is_free has_expired Postgres.acquired_row Postgres.checked_holder
    Postgres.extend_row is_locked_by Postgres.extended_lease eqb_ℤ whole_seconds
contest-bob = refl

contest-now : (after (pos 7) 0 [] contest).now ≡ 2000000006
unfolding history move
contest-now = refl

history_exclusion_example : bob ≡ bob
unfolding lookup
history_exclusion_example =
    history_exclusion (pos 7) 0 [] contest bob bob 5000000006 5000000006 (λ r e. ground arith)
      contest-bob contest-bob (omega (arith, contest-now)) (omega (arith, contest-now))

lease_length_example :
    succeeded
      (Postgres.acquire_lock (pos 7) ann 1 (
        quiet (2000000006 + 500000000) (
          table_of
            (Postgres.acquire_lock (pos 7) bob 999999999 (quiet 2000000006 locked_table)).1))).0
    ≡ ltb (whole_seconds 999999999) 500000000
unfolding Postgres.acquire_lock statement db_call called_at on_table Postgres.upsert
    Postgres.insert_or_update lookup insert update_row update_found is_free has_expired
    Postgres.acquired_row Postgres.checked_holder equal eqb_ℤ whole_seconds
lease_length_example =
    lease_length (pos 7) bob ann 999999999 1 2000000006 500000000 2000000006 locked_table
      locked_table-IsSoundAt refl

abbrev options : List TableLockerOption
options = with_table_name (codes "t") ∷ with_table_lock_timeout (pos 5) 2 ∷ []

abbrev configured : TableConfig
configured = record default_config {
  table_name = codes "t";
  lock_timeout = record { interval_duration = pos 5; failure_threshold = 2 };
}

new_table_locker-IsValid_example : IsValid configured × (new_table_locker options ≡ ok configured)
unfolding table_locker_config apply_all apply probe_of leb_ℤ
new_table_locker-IsValid_example = new_table_locker-IsValid options configured refl

abbrev session_options : List SessionLockerOption
session_options = with_lock_id (pos 3) ∷ with_lock_timeout 9223372036 4 ∷ []

abbrev session_config : SessionConfig
session_config = record {
  lock_id = pos 3;
  lock_probe = record { interval_duration = pos 9223372036000000000; failure_threshold = 4 };
  unlock_probe = record { interval_duration = pos 2000000000; failure_threshold = 30 };
}

new_session_locker-IsTimed_example : IsTimed session_config
unfolding new_session_locker apply_sessions apply_session session_probe seconds with_session_probe
new_session_locker-IsTimed_example =
    new_session_locker-IsTimed session_options session_config (tt, (omega arith, tt)) refl

-- A period that wraps around to no time at all.
wrapped_period : seconds 36028797018963968 ≡ pos 0
unfolding seconds
wrapped_period = refl

-- `retry.Do` that makes one attempt, and one that makes two.
once : {W : Type 0} → Attempt × W → Result (Unit {0}) × W
once (done, w) = (ok tt, w)
once (retryable e, w) = (err e, w)
once (given_up e, w) = (err e, w)

once-done : {W : Type 0} (r : Attempt × W) (u : W) → once r ≡ (ok tt, u) → r ≡ (done, u)
unfolding once
once-done (done, w) u h = ground arith
once-done (retryable e, w) u h = ground arith
once-done (given_up e, w) u h = ground arith

one_attempt : {W : Type 0} → RetryDo W
unfolding once
one_attempt f w = once (f w)

one_attempt-EndsDone : {W : Type 0} → EndsDone W one_attempt
unfolding one_attempt
one_attempt-EndsDone f w u h = (w, once-done (f w) u h)

twice : {W : Type 0} → (W → Attempt × W) → Attempt × W → Result (Unit {0}) × W
unfolding once
twice f (retryable e, w) = once (f w)
twice f (done, w) = (ok tt, w)
twice f (given_up e, w) = (err e, w)

two_attempts : {W : Type 0} → RetryDo W
unfolding twice
two_attempts f w = twice f (f w)

twice-done :
    {W : Type 0} (f : W → Attempt × W) (w u : W) (r : Attempt × W)
    → f w ≡ r
    → twice f r ≡ (ok tt, u)
    → (k : ℕ) × (v : W) × Retried f k w v × (f v ≡ (done, u))
unfolding twice
twice-done f w u (done, t) e h = (0, w, refl, ground arith)
twice-done f w u (retryable x, t) e h = (1, t, (x, t, e, refl), once-done (f t) u h)
twice-done f w u (given_up x, t) e h = ground arith

two_attempts-RetriesToDone : {W : Type 0} → RetriesToDone W two_attempts
unfolding two_attempts
two_attempts-RetriesToDone f w u h = twice-done f w u (f w) refl h

-- An advisory lock that is granted at the second query, and released at the first one.
abbrev try_advisory : ℤ → Exec ℕ Bool
try_advisory id n = (ok (ltb 0 n), suc n)

abbrev free_advisory : ℤ → Exec ℕ Bool
free_advisory id n = (ok true, n - 1)

session_lock-granted_example : Answered (try_advisory (pos 3)) 0 2
unfolding session_lock two_attempts twice once advisory
session_lock-granted_example =
    session_lock-granted two_attempts try_advisory session_config 0 2 two_attempts-RetriesToDone
      refl

session_unlock-released_example : Answered (free_advisory (pos 3)) 2 1
unfolding session_unlock two_attempts twice once advisory
session_unlock-released_example =
    session_unlock-released two_attempts free_advisory session_config 2 1 two_attempts-RetriesToDone
      refl

abbrev anns : TableLocker Server
anns = record {
  store = postgres_store;
  lock_id = pos 7;
  instance = ann;
  lease_duration = 2500000000;
  retry_policy = none;
}

abbrev idle : Held Server
idle = record {
  world = record {
    table = none;
    saved = none;
    now = 0;
    events = record { elapsed = 4; fault = none } ∷ record { elapsed = 2; fault = none } ∷ [];
  };
  holders = 0;
  heartbeat = false;
}

lock_balance_example :
    IsLocked (lock anns one_attempt idle).0 idle (lock anns one_attempt idle).1
    × ((unlock anns one_attempt idle).1.holders ≡ 0)
    × ((unlock anns one_attempt idle).1.heartbeat ≡ false)
lock_balance_example = lock_balance anns one_attempt idle

abbrev holding : Held Server
holding = record {
  world = record {
    table = some ((pos 7, taken 6 ann 2000000000) ∷ []);
    saved = none;
    now = 6;
    events = [];
  };
  holders = 1;
  heartbeat = true;
}

lock-taken_example :
    (lookup (pos 7) ((pos 7, taken 6 ann 2000000000) ∷ [])
      ≡ some (taken 6 ann (whole_seconds 2500000000)))
    × (true ≡ true)
unfolding lock after_create after_acquire acquire_attempt acquired_or start_heartbeat stop_heartbeat
    one_attempt once Postgres.acquire_lock statement db_call called_at on_table Postgres.upsert
    Postgres.insert_or_update lookup insert Postgres.acquired_row Postgres.checked_holder equal
    eqb_ℤ whole_seconds create_lock_table table_exists table_there create_empty after_exists
    Lock.after_create
lock-taken_example = lock-taken anns one_attempt idle holding refl one_attempt-EndsDone refl
