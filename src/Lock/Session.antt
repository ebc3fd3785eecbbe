-- ===== src/Lock/Session.antt =====
-- lock/session_locker_options.go, and the session locker of lock/postgres.go, over the advisory locks
-- of the database and over `retry.Do`, which are parameters.
use pressly_goose_patches.Base.{
  ◌≡◌, ℕ, zero, suc, ◌-◌, ◌*◌, ◌%◌, ◌^◌, ◌≤◌, ◌<◌, Bool, true, false, List, [], ◌∷◌, ◌||◌,
  if◌then◌else◌, arith, ltb, inl, inr, subst, All,
}
use pressly_goose_patches.Int.{ℤ, pos, negsuc, ◌<ℤ◌}
use pressly_goose_patches.Text.{Str, codes}
use pressly_goose_patches.Outcome.{Error, external, Result, ok, err, Result-cases, Exec}
use pressly_goose_patches.Provider.{Attempt, done, retryable, given_up}
use pressly_goose_patches.Lock.Options.{ProbeConfig, invalid}

-- `SessionLockerOption` and `sessionLockerConfig`
pub record SessionConfig : Type 0 where
  pub lock_id : ℤ
  pub lock_probe : ProbeConfig
  pub unlock_probe : ProbeConfig

pub data SessionLockerOption : Type 0 where
  with_lock_id : ℤ → SessionLockerOption
  with_lock_timeout with_unlock_timeout : ℕ → ℕ → SessionLockerOption

-- `time.Duration(period) * time.Second` of a uint64, with the wrap-around of int64.
unfoldable pub seconds : ℕ → ℤ
seconds period =
    let n = period * 1000000000 % 2 ^ 64 in
    if ltb n (2 ^ 63) then pos n else negsuc (2 ^ 64 - n - 1)

unfoldable pub session_probe : ℕ → ℕ → Result ProbeConfig
unfolding seconds
session_probe period threshold =
    if ltb period 1 || ltb threshold 1
    then err invalid
    else ok (record { interval_duration = seconds period; failure_threshold = threshold })

unfoldable pub with_session_probe :
    Result ProbeConfig → (ProbeConfig → SessionConfig) → Result SessionConfig
with_session_probe (ok p) f = ok (f p)
with_session_probe (err e) f = err e

unfoldable pub apply_session : SessionLockerOption → SessionConfig → Result SessionConfig
unfolding session_probe with_session_probe
apply_session (with_lock_id id) c = ok (record c { lock_id = id })
apply_session (with_lock_timeout d n) c =
    with_session_probe (session_probe d n) (λ p. record c { lock_probe = p })
apply_session (with_unlock_timeout d n) c =
    with_session_probe (session_probe d n) (λ p. record c { unlock_probe = p })

unfoldable pub apply_sessions : List SessionLockerOption → SessionConfig → Result SessionConfig
unfolding apply_session
apply_sessions [] c = ok c
apply_sessions (o ∷ os) c = elim (apply_session o c) [ ok d ↦ apply_sessions os d | err e ↦ err e ]

-- `NewPostgresSessionLocker`
unfoldable pub new_session_locker : List SessionLockerOption → Result SessionConfig
unfolding apply_sessions
new_session_locker os = apply_sessions os (record {
  lock_id = pos 4097083626;
  lock_probe = record { interval_duration = pos 5000000000; failure_threshold = 60 };
  unlock_probe = record { interval_duration = pos 2000000000; failure_threshold = 30 };
})

-- The largest number of whole seconds that a `time.Duration` holds.
abbrev pub max_seconds : ℕ
max_seconds = 9223372036

pub seconds-lem : (n : ℕ) → n ≤ max_seconds → seconds n ≡ pos (n * 1000000000)
unfolding seconds
seconds-lem n h = ground arith

-- A period that fits.
abbrev pub IsShort : SessionLockerOption → Type 0
IsShort (with_lock_id id) = Unit
IsShort (with_lock_timeout d n) = d ≤ max_seconds
IsShort (with_unlock_timeout d n) = d ≤ max_seconds

abbrev pub IsTimed : SessionConfig → Type 0
IsTimed c =
    (pos 0 <ℤ c.lock_probe.interval_duration)
    × (0 < c.lock_probe.failure_threshold)
    × (pos 0 <ℤ c.unlock_probe.interval_duration)
    × (0 < c.unlock_probe.failure_threshold)

apply_session-IsTimed :
    (o : SessionLockerOption) (c d : SessionConfig)
    → IsShort o
    → apply_session o c ≡ ok d
    → IsTimed c
    → IsTimed d
unfolding apply_session session_probe with_session_probe
apply_session-IsTimed (with_lock_id x) c d b h v = ground arith
apply_session-IsTimed (with_lock_timeout x n) c d b h v = ground (arith, seconds-lem x b)
apply_session-IsTimed (with_unlock_timeout x n) c d b h v = ground (arith, seconds-lem x b)

apply_sessions-IsTimed :
    (os : List SessionLockerOption) (c d : SessionConfig)
    → All IsShort os
    → apply_sessions os c ≡ ok d
    → IsTimed c
    → IsTimed d
unfolding apply_sessions
apply_sessions-IsTimed [] c d b h v = let e : c ≡ d = ground arith in subst IsTimed e v
apply_sessions-IsTimed (o ∷ os) c d b h v = elim (Result-cases (apply_session o c)) [
  | inl (m, e) ↦
      apply_sessions-IsTimed os m d b.1 (ground arith) (apply_session-IsTimed o c m b.0 e v)
  | inr (x, e) ↦ ground arith
]

-- The configuration of a session locker whose periods are at most 9223372036 seconds, the most that a
-- `time.Duration` holds, has positive intervals and thresholds.
pub new_session_locker-IsTimed :
    (os : List SessionLockerOption) (c : SessionConfig)
    → All IsShort os
    → new_session_locker os ≡ ok c
    → IsTimed c
unfolding new_session_locker
new_session_locker-IsTimed os c b h =
    apply_sessions-IsTimed os _ c b h (omega arith, omega arith, omega arith, omega arith)

-- The row of `pg_try_advisory_lock` or of `pg_advisory_unlock`: its value, and `retry.Do`.
abbrev pub RetryDo : Type 0 → Type 0
RetryDo W = (W → Attempt × W) → Exec W (Unit {0})

-- `retry.Do` returns nil only where the function did.
abbrev pub EndsDone : (W : Type 0) → RetryDo W → Type 0
EndsDone W retry_do =
    (f : W → Attempt × W) (w u : W) → retry_do f w ≡ (ok tt, u) → (v : W) × (f v ≡ (done, u))

-- The function is called so often, one call after the other, and each call asks for another one.
abbrev pub Retried : {W : Type 0} → (W → Attempt × W) → ℕ → W → W → Type 0
Retried f zero w v = w ≡ v
Retried f (suc k) w v = (e : Error) × (t : _) × (f w ≡ (retryable e, t)) × Retried f k t v

-- `retry.Do` returns nil only where the function did, after calls that asked for another one.
abbrev pub RetriesToDone : (W : Type 0) → RetryDo W → Type 0
RetriesToDone W retry_do =
    (f : W → Attempt × W) (w u : W)
    → retry_do f w ≡ (ok tt, u)
    → (k : ℕ) × (v : W) × Retried f k w v × (f v ≡ (done, u))

-- The database answers a query so often with false, one query after the other.
abbrev pub Refused : {W : Type 0} → Exec W Bool → ℕ → W → W → Type 0
Refused query zero w v = w ≡ v
Refused query (suc k) w v = (t : _) × (query w ≡ (ok false, t)) × Refused query k t v

-- It answers with true, after so many answers with false and no others.
abbrev pub Answered : {W : Type 0} → Exec W Bool → W → W → Type 0
Answered query w u = (k : ℕ) × (v : _) × Refused query k w v × (query v ≡ (ok true, u))

module _ {W : Type 0} where
  -- What the function given to `retry.Do` makes of the row.
  unfoldable pub advisory : Str → Result Bool × W → Attempt × W
  advisory text (ok true, w) = (done, w)
  advisory text (ok false, w) = (retryable (external text), w)
  advisory text (err e, w) = (given_up e, w)

  unfoldable pub session_lock : RetryDo W → (ℤ → Exec W Bool) → SessionConfig → Exec W (Unit {0})
  unfolding advisory
  session_lock retry_lock try_lock c =
      retry_lock (λ w. advisory (codes "failed to acquire lock") (try_lock c.lock_id w))

  unfoldable pub session_unlock : RetryDo W → (ℤ → Exec W Bool) → SessionConfig → Exec W (Unit {0})
  unfolding advisory
  session_unlock retry_unlock unlock c =
      retry_unlock (λ w. advisory (codes "failed to unlock session") (unlock c.lock_id w))

  advisory-done :
      (text : Str) (r : Result Bool × W) (u : W) → advisory text r ≡ (done, u) → r ≡ (ok true, u)
  unfolding advisory
  advisory-done text (ok true, w) u h = ground arith
  advisory-done text (ok false, w) u h = ground arith
  advisory-done text (err e, w) u h = ground arith

  advisory-retryable :
      (text : Str) (r : Result Bool × W) (e : Error) (t : W)
      → advisory text r ≡ (retryable e, t)
      → r ≡ (ok false, t)
  unfolding advisory
  advisory-retryable text (ok true, w) e t h = ground arith
  advisory-retryable text (ok false, w) e t h = ground arith
  advisory-retryable text (err x, w) e t h = ground arith

  Retried-Refused :
      (text : Str) (query : Exec W Bool) (k : ℕ) (w v : W)
      → Retried (λ w. advisory text (query w)) k w v
      → Refused query k w v
  Retried-Refused text query zero w v h = h
  Retried-Refused text query (suc k) w v (e, t, h, later) =
      (t, advisory-retryable text (query w) e t h, Retried-Refused text query k t v later)

  retry-Answered :
      (retry_do : RetryDo W) (text : Str) (query : Exec W Bool) (w u : W)
      → RetriesToDone W retry_do
      → retry_do (λ w. advisory text (query w)) w ≡ (ok tt, u)
      → Answered query w u
  retry-Answered retry_do text query w u ends h =
      let (k, v, tried, last) = ends (λ w. advisory text (query w)) w u h in
      (k, v, Retried-Refused text query k w v tried, advisory-done text (query v) u last)

  -- A session lock that succeeds has asked the database for the advisory lock of the configured ID
  -- until it was granted: it was refused at every query but the last one, so it was granted once, and
  -- no query failed. This is for a `retry.Do` that returns nil only where the function did, after
  -- calls that asked for another one.
  pub session_lock-granted :
      (retry_lock : RetryDo W) (try_lock : ℤ → Exec W Bool) (c : SessionConfig) (w u : W)
      → RetriesToDone W retry_lock
      → session_lock retry_lock try_lock c w ≡ (ok tt, u)
      → Answered (try_lock c.lock_id) w u
  unfolding session_lock
  session_lock-granted retry_lock try_lock c w u ends h =
      retry-Answered retry_lock (codes "failed to acquire lock") (try_lock c.lock_id) w u ends h

  -- A session unlock that succeeds has told the database to release the advisory lock of the
  -- configured ID until it did: every answer but the last one was false, so it was released once, and
  -- no query failed. This is for a `retry.Do` that returns nil only where the function did, after
  -- calls that asked for another one.
  pub session_unlock-released :
      (retry_unlock : RetryDo W) (unlock : ℤ → Exec W Bool) (c : SessionConfig) (w u : W)
      → RetriesToDone W retry_unlock
      → session_unlock retry_unlock unlock c w ≡ (ok tt, u)
      → Answered (unlock c.lock_id) w u
  unfolding session_unlock
  session_unlock-released retry_unlock unlock c w u ends h =
      retry-Answered retry_unlock (codes "failed to unlock session") (unlock c.lock_id) w u ends h
