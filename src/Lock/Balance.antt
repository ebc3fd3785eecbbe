-- ===== src/Lock/Balance.antt =====
-- lock/internal/table/locker.go: the mutex, the heartbeat and the row of the lock after `Lock` and
-- `Unlock`.
use pressly_goose_patches.Base.{
  ◌≡◌, refl, ℕ, suc, ◌+◌, ◌-◌, true, false, List, [], ◌∷◌, Option, none, some, if◌then◌else◌, arith,
  subst, ap, sym, ◌∙◌, Option-cases, inl, inr,
}
use pressly_goose_patches.Int.{ℤ, eqb_ℤ_refl, eqb_ℤ}
use pressly_goose_patches.VersionMap.{lookup, insert, lookup-insert}
use pressly_goose_patches.Text.{Str}
use pressly_goose_patches.Outcome.{>>=-eq-ok, lift, Result, ok, err}
use pressly_goose_patches.Provider.{done}
use pressly_goose_patches.Lock.{
  Server, AcquireLockResult, Row, Table, Event, taken, whole_seconds, statement, db_call, called_at,
  on_table, update_row, update_found,
}
use pressly_goose_patches.Lock.Session.{RetryDo, EndsDone}
use pressly_goose_patches.Lock.Lease.{table_of}
use pressly_goose_patches.Lock.Postgres
use pressly_goose_patches.Lock.Locker.{
  TableLocker, Held, lock, unlock, after_create, after_acquire, acquire_attempt, acquired_or,
  retry_if, stop_heartbeat, start_heartbeat, postgres_store,
}

module _ {W : Type 0} where
  abbrev pub IsLocked : Result (Unit {0}) → Held W → Held W → Type 0
  IsLocked (ok _) s t = (t.holders ≡ suc s.holders) × (t.heartbeat ≡ true)
  IsLocked (err _) s t = (t.holders ≡ s.holders) × (t.heartbeat ≡ s.heartbeat)

  after_acquire-IsLocked :
      (l : TableLocker W) (s : Held W) (r : Result (Unit {0}) × W)
      → (let t = after_acquire l (record s { holders = suc s.holders }) r in IsLocked t.0 s t.1)
  unfolding after_acquire start_heartbeat stop_heartbeat
  after_acquire-IsLocked l s (ok _, w) = (refl, refl)
  after_acquire-IsLocked l s (err e, w) = (omega arith, refl)

  after_create-IsLocked :
      (l : TableLocker W) (retry_do : RetryDo W) (s : Held W) (r : Result (Unit {0}) × W)
      → (let t = after_create l retry_do (record s { holders = suc s.holders }) r in
          IsLocked t.0 s t.1)
  unfolding after_create
  after_create-IsLocked l retry_do s (ok _, w) =
      after_acquire-IsLocked l s (retry_do (acquire_attempt l) w)
  after_create-IsLocked l retry_do s (err e, w) = (omega arith, refl)

  -- Whatever the store and `retry.Do` do: a `Lock` that succeeds leaves the mutex locked once more and a
  -- heartbeat running, one that fails leaves the mutex and the heartbeat as they were, and an `Unlock`
  -- unlocks the mutex once and stops the heartbeat, whether it succeeds or fails.
  pub lock_balance :
      (l : TableLocker W) (retry_do : RetryDo W) (s : Held W)
      → IsLocked (lock l retry_do s).0 s (lock l retry_do s).1
        × ((unlock l retry_do s).1.holders ≡ s.holders - 1)
        × ((unlock l retry_do s).1.heartbeat ≡ false)
  unfolding lock unlock stop_heartbeat
  lock_balance l retry_do s =
      (after_create-IsLocked l retry_do s (l.store.create_lock_table s.world), refl, refl)

  acquired_or-done :
      (l : TableLocker W) (r : Result AcquireLockResult × W) (u : W)
      → acquired_or l r ≡ (done, u)
      → (a : AcquireLockResult) × (r ≡ (ok a, u))
  unfolding acquired_or retry_if
  acquired_or-done l (ok a, w) u h = (a, ground arith)
  acquired_or-done l (err e, w) u h = ground arith

  after_acquire-ok :
      (l : TableLocker W) (s t : Held W) (r : Result (Unit {0}) × W)
      → after_acquire l s r ≡ (ok tt, t)
      → r ≡ (ok tt, t.world)
  unfolding after_acquire start_heartbeat stop_heartbeat
  after_acquire-ok l s t (ok _, w) h = ground arith
  after_acquire-ok l s t (err e, w) h = ground arith

  -- A `Lock` that succeeds ends with an acquisition that does.
  after_create-acquired :
      (l : TableLocker W) (retry_do : RetryDo W) (s t : Held W) (r : Result (Unit {0}) × W)
      → EndsDone W retry_do
      → after_create l retry_do s r ≡ (ok tt, t)
      → (a : AcquireLockResult) × (v : W) × (l.store.acquire_lock l.lock_id l.instance
            l.lease_duration v
          ≡ (ok a, t.world))
  unfolding after_create acquire_attempt
  after_create-acquired l retry_do s t (ok _, w) ends h =
      let e = after_acquire-ok l s t (retry_do (acquire_attempt l) w) h in
      let (v, f) = ends (acquire_attempt l) w t.world e in
      let (a, g) =
        acquired_or-done l (l.store.acquire_lock l.lock_id l.instance l.lease_duration v) t.world
          f in
      (a, v, g)
  after_create-acquired l retry_do s t (err e, w) ends h = ground arith

on_table-ok :
    {A : Type 0} (f : ℕ → Table → A × Table) (o : Option Table) (s u : Server) (a : A)
    → on_table f o s ≡ (ok a, u)
    → (t : Table) × (a ≡ (f u.now t).0) × (u.table ≡ some (f u.now t).1)
unfolding on_table
on_table-ok f none s u a h = ground arith
on_table-ok f (some t) s u a h = (t, ground arith, ground arith)

called_at-ok :
    {A : Type 0} (f : ℕ → Table → A × Table) (es : List Event) (s u : Server) (a : A)
    → called_at (λ s. on_table f s.table s) es s ≡ (ok a, u)
    → (t : Table) × (a ≡ (f u.now t).0) × (u.table ≡ some (f u.now t).1)
unfolding called_at
called_at-ok f [] s u a h = on_table-ok f s.table s u a h
called_at-ok f (e ∷ es) s u a h = elim (Option-cases e.fault) [
  | inl n ↦
      on_table-ok f s.table (record s { now = s.now + e.elapsed; events = es }) u a (ground arith)
  | inr (x, n) ↦ ground arith
]

-- The row that a successful upsert writes.
upsert-taken :
    (id : ℤ) (i : Str) (d now : ℕ) (t : Table) (r : Row)
    → (Postgres.upsert id i d now t).0 ≡ some r
    → lookup id (Postgres.upsert id i d now t).1 ≡ some (taken now i d)
unfolding Postgres.upsert Postgres.insert_or_update update_row update_found
upsert-taken id i d now t r h =
    let l : lookup id (insert id (taken now i d) t)
        ≡ (if eqb_ℤ id id then some (taken now i d) else lookup id t) =
      lookup-insert id id (taken now i d) t in
    elim (Option-cases (lookup id t)) [
      | inl e ↦ ground (arith, eqb_ℤ_refl id)
      | inr (x, e) ↦ ground (arith, eqb_ℤ_refl id)
    ]

acquired_row-some :
    (i : Str) (o : Option Row) (a : AcquireLockResult)
    → Postgres.acquired_row i o ≡ ok a
    → (r : Row) × (o ≡ some r)
unfolding Postgres.acquired_row
acquired_row-some i none a h = ground arith
acquired_row-some i (some r) a h = (r, refl)

acquire_lock-taken :
    (id : ℤ) (i : Str) (d : ℕ) (s u : Server) (a : AcquireLockResult)
    → Postgres.acquire_lock id i d s ≡ (ok a, u)
    → lookup id (table_of u) ≡ some (taken u.now i (whole_seconds d))
unfolding Postgres.acquire_lock statement db_call
acquire_lock-taken id i d s u a h =
    let m = statement (Postgres.upsert id i (whole_seconds d)) in
    let (o, v, e, f) = >>=-eq-ok m (λ r. lift (Postgres.acquired_row i r)) s h in
    let (r, g) = acquired_row-some i o a (ground arith) in
    let q : v ≡ u = ground arith in
    let (t, x, y) = called_at-ok (Postgres.upsert id i (whole_seconds d)) s.events s v o e in
    let z = upsert-taken id i (whole_seconds d) v.now t r (ground arith) in ground arith

-- With the store of postgres.go, and a `retry.Do` that returns nil only after a call that returned
-- nil: after a `Lock` that succeeds, whatever failed before it was retried and however long it took,
-- the row of the lock is this instance's, with a lease of the whole seconds of the configured
-- duration from the time of the last call, and a heartbeat is running.
pub lock-taken :
    (l : TableLocker Server) (retry_do : RetryDo Server) (s t : Held Server)
    → l.store ≡ postgres_store
    → EndsDone Server retry_do
    → lock l retry_do s ≡ (ok tt, t)
    → (lookup l.lock_id (table_of t.world)
        ≡ some (taken t.world.now l.instance (whole_seconds l.lease_duration)))
      × (t.heartbeat ≡ true)
unfolding lock
lock-taken l retry_do s t p ends h =
    let s1 : Held Server = record s { holders = suc s.holders } in
    let (a, v, e) =
      after_create-acquired l retry_do s1 t (l.store.create_lock_table s.world) ends h in
    let b = subst (λ r. IsLocked r.0 s r.1) h (lock_balance l retry_do s).0 in
    let q = ap (λ x. x.acquire_lock l.lock_id l.instance l.lease_duration v) (sym p) ∙ e in
    (acquire_lock-taken l.lock_id l.instance l.lease_duration v t.world a q, b.1)
