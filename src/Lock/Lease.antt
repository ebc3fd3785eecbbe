-- ===== src/Lock/Lease.antt =====
-- lock/internal/store: what the row of one lock means, and the store of postgres.go as a lock with a
-- lease. The lock is free, or an instance holds it until a time, after which another may take it.
use pressly_goose_patches.Base.{
  ◌≡◌, refl, ℕ, ◌+◌, Bool, true, false, [], Option, none, some, if◌then◌else◌, ltb, ◌⊎◌, inr,
}
use pressly_goose_patches.Int.{ℤ}
use pressly_goose_patches.VersionMap.{lookup}
use pressly_goose_patches.Text.{Str, equal}
use pressly_goose_patches.Outcome.{Result, ok, err}
use pressly_goose_patches.Lock.{Row, Table, Server, AcquireLockResult, taken}

pub data Lease : Type 0 where
  free : Lease
  held : Str → ℕ → Lease

-- An acquisition, a renewal and a release by an instance, and the passing of the time of expiry.
abbrev pub acquire : Str → ℕ → ℕ → Lease → Option ℕ × Lease
acquire i d now free = (some (now + d), held i (now + d))
acquire i d now (held h e) =
    if ltb e now then (some (now + d), held i (now + d)) else (none, held h e)

abbrev pub renew : Str → ℕ → ℕ → Lease → Option ℕ × Lease
renew i d now free = (none, free)
renew i d now (held h e) =
    if equal h i then (some (now + d), held h (now + d)) else (none, held h e)

abbrev pub release : Str → Lease → Bool × Lease
release i free = (false, free)
release i (held h e) = if equal h i then (true, free) else (false, held h e)

abbrev pub expire : ℕ → Lease → Lease
expire now free = free
expire now (held h e) = if ltb e now then free else held h e

-- The lease that a row records.
unfoldable pub held_by : Option Str → Option ℕ → Lease
held_by (some h) (some e) = held h e
held_by _ _ = free

unfoldable pub row_lease : Option Row → Lease
unfolding held_by
row_lease none = free
row_lease (some r) = if r.locked then held_by r.locked_by r.lease_expires_at else free

unfoldable pub lease_at : ℤ → Table → Lease
unfolding row_lease
lease_at id t = row_lease (lookup id t)

-- A row is locked with a holder and a lease, or neither locked nor held nor leased.
abbrev pub IsSound : Row → Type 0
IsSound r =
    ((r.locked ≡ false) × (r.locked_by ≡ none) × (r.lease_expires_at ≡ none))
    ⊎ ((h : Str) × (e : ℕ) × (r.locked ≡ true)
        × (r.locked_by ≡ some h)
        × (r.lease_expires_at ≡ some e))

abbrev pub IsSoundAt : ℤ → Table → Type 0
IsSoundAt id t = (r : Row) → lookup id t ≡ some r → IsSound r

pub taken-IsSound : (now : ℕ) (i : Str) (d : ℕ) → IsSound (taken now i d)
taken-IsSound now i d = inr (i, now + d, refl, refl, refl)

-- The table that an operation leaves, and the lease that it grants.
abbrev pub table_of : Server → Table
table_of s = elim s.table [ none ↦ [] | some t ↦ t ]

abbrev pub granted : Result AcquireLockResult → Option ℕ
granted (ok a) = some a.lease_expires_at
granted (err _) = none

abbrev pub renewed : Result ℕ → Option ℕ
renewed (ok e) = some e
renewed (err _) = none

abbrev pub succeeded : {A : Type 0} → Result A → Bool
succeeded (ok _) = true
succeeded (err _) = false
