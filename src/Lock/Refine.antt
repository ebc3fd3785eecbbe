-- ===== src/Lock/Refine.antt =====
-- lock/internal/store/postgres.go: each statement does to the row of a lock what the operation of
-- the abstract lock does to its lease.
use pressly_goose_patches.Base.{
  ◌≡◌, refl, ℕ, ◌+◌, true, false, [], ◌∷◌, Option, none, some, if◌then◌else◌, arith, ltb, ◌⊎◌,
  Bool-cases, inl, inr, Option-cases, subst,
}
use pressly_goose_patches.Int.{ℤ, eqb_ℤ_refl}
use pressly_goose_patches.VersionMap.{lookup, insert, lookup-insert}
use pressly_goose_patches.Text.{Str}
use pressly_goose_patches.Text.Equal.{equal_refl}
use pressly_goose_patches.Lock.{
  Row, Table, whole_seconds, statement, db_call, called_at, on_table, update_row, update_found,
  is_stale, freed, taken, clear_stale, is_free, is_locked_by, has_expired,
}
use pressly_goose_patches.Lock.Agree.{quiet}
use pressly_goose_patches.Lock.Postgres
use pressly_goose_patches.Lock.Lease.{
  acquire, renew, release, expire, held_by, row_lease, lease_at, IsSound, IsSoundAt, taken-IsSound,
  table_of, granted, renewed, succeeded,
}

-- The three shapes of the row of a lock.
pub shapes :
    (id : ℤ) (t : Table)
    → IsSoundAt id t
    → (lookup id t ≡ none)
      ⊎ (((r : Row) × (lookup id t ≡ some r)
            × (r.locked ≡ false)
            × (r.locked_by ≡ none)
            × (r.lease_expires_at ≡ none))
          ⊎ ((r : Row) × (h : Str) × (e : ℕ) × (lookup id t ≡ some r)
              × (r.locked ≡ true)
              × (r.locked_by ≡ some h)
              × (r.lease_expires_at ≡ some e)))
shapes id t k = elim (Option-cases (lookup id t)) [
  | inl e ↦ inl e
  | inr (r, e) ↦ elim (k r e) [
    | inl (a, b, c) ↦ inr (inl (r, e, a, b, c))
    | inr (h, x, a, b, c) ↦ inr (inr (r, h, x, e, a, b, c))
  ]
]

pub only-IsSound :
    (id : ℤ) (t : Table) (r : Row) → lookup id t ≡ some r → IsSound r → IsSoundAt id t
only-IsSound id t r e h r' e' = let f : r ≡ r' = ground arith in subst IsSound f h

module _ (id : ℤ) (i : Str) (d now : ℕ) (t : Table) where
  inserted : (r : Row) → lookup id (insert id r t) ≡ some r
  inserted r = rw (lookup-insert, eqb_ℤ_refl)

  insert-IsSound : (r : Row) → IsSound r → IsSoundAt id (insert id r t)
  insert-IsSound r h = only-IsSound id (insert id r t) r (inserted r) h

  abbrev pub Acquires : Type 0
  Acquires =
      let w = Postgres.acquire_lock id i d (quiet now t) in
      let a = acquire i (whole_seconds d) now (lease_at id t) in
      (granted w.0 ≡ a.0) × (lease_at id (table_of w.1) ≡ a.1) × IsSoundAt id (table_of w.1)

  acquires : IsSoundAt id t → Acquires
  unfolding Postgres.acquire_lock statement db_call called_at on_table Postgres.upsert
      Postgres.insert_or_update update_row update_found is_free has_expired Postgres.acquired_row
      Postgres.checked_holder lease_at row_lease held_by
  acquires k =
      let l = inserted (taken now i (whole_seconds d)) in
      let s =
        insert-IsSound (taken now i (whole_seconds d)) (taken-IsSound now i (whole_seconds d)) in
      elim (shapes id t k) [
        | inl e ↦ ground (arith, equal_refl i)
        | inr (inl (r, e, a, b, c)) ↦ ground (arith, equal_refl i)
        | inr (inr (r, h, x, e, a, b, c)) ↦ ground (arith, equal_refl i)
      ]

  abbrev pub Renews : Type 0
  Renews =
      let w = Postgres.update_lease id i d (quiet now t) in
      let a = renew i (whole_seconds d) now (lease_at id t) in
      (renewed w.0 ≡ a.0) × (lease_at id (table_of w.1) ≡ a.1) × IsSoundAt id (table_of w.1)

  renews : IsSoundAt id t → Renews
  unfolding Postgres.update_lease statement db_call called_at on_table Postgres.extend_row
      update_row update_found is_locked_by Postgres.extended_lease lease_at row_lease held_by
  renews k = elim (shapes id t k) [
    | inl e ↦ ground arith
    | inr (inl (r, e, a, b, c)) ↦ ground arith
    | inr (inr (r, h, x, e, a, b, c)) ↦
        let r' : Row = record r {
          lease_expires_at = some (now + whole_seconds d);
          updated_at = some now;
        } in
        let l = inserted r' in
        let s = insert-IsSound r' (inr (h, now + whole_seconds d, a, b, refl)) in ground arith
  ]

  abbrev pub Releases : Type 0
  Releases =
      let w = Postgres.release_lock id i (quiet now t) in
      let a = release i (lease_at id t) in
      (succeeded w.0 ≡ a.0) × (lease_at id (table_of w.1) ≡ a.1) × IsSoundAt id (table_of w.1)

  releases : IsSoundAt id t → Releases
  unfolding Postgres.release_lock statement db_call called_at on_table Postgres.free_row update_row
      update_found is_locked_by Postgres.released_row lease_at row_lease held_by
  releases k =
      let l = inserted (freed now) in
      let s = insert-IsSound (freed now) (inl (refl, refl, refl)) in
      elim (shapes id t k) [
        | inl e ↦ ground arith
        | inr (inl (r, e, a, b, c)) ↦ ground arith
        | inr (inr (r, h, x, e, a, b, c)) ↦ ground (arith, eqb_ℤ_refl id)
      ]

cleared : ℕ → Row → Row
cleared now r = if is_stale now r then freed now else r

cleared_row : ℕ → Option Row → Option Row
cleared_row now none = none
cleared_row now (some r) = some (cleared now r)

lookup-clear_stale :
    (id : ℤ) (now : ℕ) (t : Table) → lookup id (clear_stale now t).1 ≡ cleared_row now (lookup id t)
unfolding clear_stale lookup cleared cleared_row
lookup-clear_stale id now [] = refl
lookup-clear_stale id now ((j, r) ∷ t) = ground (arith, lookup-clear_stale id now t)

-- The row of a lock after a cleanup.
module _ (id : ℤ) (now : ℕ) (t : Table) where
  abbrev pub Cleans : Type 0
  Cleans =
      let w = Postgres.cleanup_stale_locks (quiet now t) in
      (lease_at id (table_of w.1) ≡ expire now (lease_at id t)) × IsSoundAt id (table_of w.1)

  cleans : IsSoundAt id t → Cleans
  unfolding Postgres.cleanup_stale_locks statement db_call called_at on_table lease_at row_lease
      held_by cleared_row cleared is_stale has_expired
  cleans k =
      let l = lookup-clear_stale id now t in
      elim (shapes id t k) [
        | inl e ↦ ground arith
        | inr (inl (r, e, a, b, c)) ↦
            let m : lookup id (clear_stale now t).1 ≡ some r = ground arith in
            let s = only-IsSound id (clear_stale now t).1 r m (inl (a, b, c)) in ground arith
        | inr (inr (r, h, x, e, a, b, c)) ↦ elim (Bool-cases (ltb x now)) [
          | inl f ↦
              let m : lookup id (clear_stale now t).1 ≡ some (freed now) = ground arith in
              let s =
                only-IsSound id (clear_stale now t).1 (freed now) m (inl (refl, refl, refl)) in
              ground arith
          | inr f ↦
              let m : lookup id (clear_stale now t).1 ≡ some r = ground arith in
              let s = only-IsSound id (clear_stale now t).1 r m (inr (h, x, a, b, c)) in
              ground arith
        ]
      ]

-- Where the row of a lock is locked with a holder and a lease or neither, and the server has the
-- table and no failures ahead, each operation of the store of postgres.go on that lock does what
-- the abstract lock does. An acquisition grants a lease of the whole seconds asked for exactly when
-- the lock is free or its lease is over; a renewal extends the lease exactly for its holder; a
-- release frees the lock exactly for its holder; a cleanup frees it exactly when its lease is over.
-- The row is of that form again after each of them.
pub postgres_refines :
    (id : ℤ) (i : Str) (d now : ℕ) (t : Table)
    → IsSoundAt id t
    → Acquires id i d now t × Renews id i d now t × Releases id i d now t × Cleans id now t
postgres_refines id i d now t k =
    (acquires id i d now t k, renews id i d now t k, releases id i d now t k, cleans id now t k)
