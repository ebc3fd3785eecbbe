-- ===== src/Lock/Exclusion.antt =====
-- lock/internal/store and lock/internal/table: several instances that use one lock of the table, in
-- any interleaving of their calls of the store of postgres.go, and the lease that each was last
-- given, which is how long it may take the lock to be its own.
use pressly_goose_patches.Base.{
  ◌≡◌, ℕ, ◌+◌, ◌≤◌, List, [], ◌∷◌, Option, none, some, if◌then◌else◌, arith, subst, sym,
}
use pressly_goose_patches.Int.{ℤ}
use pressly_goose_patches.Text.{Str, equal}
use pressly_goose_patches.Text.Equal.{equal-eq, equal_refl}
use pressly_goose_patches.Lock.{Table, whole_seconds}
use pressly_goose_patches.Lock.Agree.{quiet}
use pressly_goose_patches.Lock.Postgres
use pressly_goose_patches.Lock.Lease.{
  Lease, free, held, acquire, renew, release, expire, lease_at, IsSoundAt, table_of, granted,
  renewed,
}
use pressly_goose_patches.Lock.Refine.{postgres_refines}

-- The leases of the instances, as each has been told.
abbrev pub Leases : Type 0
Leases = Str → Option ℕ

unfoldable pub noted : Str → Option ℕ → Leases → Leases
unfolding equal
noted i none c = c
noted i (some e) c = λ j. if equal i j then some e else c j

unfoldable pub forgotten : Str → Leases → Leases
unfolding equal
forgotten i c = λ j. if equal i j then none else c j

pub record World : Type 0 where
  pub now : ℕ
  pub table : Table
  pub leases : Leases

-- Time passes; an instance acquires the lock with a lease duration, renews its lease, as its heartbeat
-- does, or releases the lock; stale locks are cleaned up.
pub data Move : Type 0 where
  pass : ℕ → Move
  take beat : Str → ℕ → Move
  give_up : Str → Move
  clean : Move

unfoldable pub move : ℤ → Move → World → World
unfolding Postgres.acquire_lock Postgres.update_lease Postgres.release_lock
    Postgres.cleanup_stale_locks noted forgotten
move id (pass n) w = record w { now = w.now + n }
move id (take i d) w =
    let (r, s) = Postgres.acquire_lock id i d (quiet w.now w.table) in
    record w { table = table_of s; leases = noted i (granted r) w.leases }
move id (beat i d) w =
    let (r, s) = Postgres.update_lease id i d (quiet w.now w.table) in
    record w { table = table_of s; leases = noted i (renewed r) w.leases }
move id (give_up i) w =
    let (r, s) = Postgres.release_lock id i (quiet w.now w.table) in
    record w { table = table_of s; leases = forgotten i w.leases }
move id clean w =
    let (r, s) = Postgres.cleanup_stale_locks (quiet w.now w.table) in
    record w { table = table_of s }

unfoldable pub history : ℤ → List Move → World → World
unfolding move
history id [] w = w
history id (m ∷ ms) w = history id ms (move id m w)

-- An instance whose lease is not over holds the lock with that lease.
AreTrue : ℕ → Lease → Leases → Type 0
AreTrue now l c = (j : Str) (e : ℕ) → c j ≡ some e → now ≤ e → l ≡ held j e

module _ (now : ℕ) (c : Leases) where
  acquire-AreTrue :
      (i : Str) (d : ℕ) (l : Lease)
      → AreTrue now l c
      → AreTrue now (acquire i d now l).1 (noted i (acquire i d now l).0 c)
  unfolding AreTrue noted
  acquire-AreTrue i d free h j e k n = ground (arith, equal-eq i j, h j e)
  acquire-AreTrue i d (held g x) h j e k n = ground (arith, equal-eq i j, h j e)

  renew-AreTrue :
      (i : Str) (d : ℕ) (l : Lease)
      → AreTrue now l c
      → AreTrue now (renew i d now l).1 (noted i (renew i d now l).0 c)
  unfolding AreTrue noted
  renew-AreTrue i d free h j e k n = ground (arith, h j e)
  renew-AreTrue i d (held g x) h j e k n =
      ground (arith, equal-eq i j, equal-eq g i, equal-eq j i, h j e)

  release-AreTrue :
      (i : Str) (l : Lease) → AreTrue now l c → AreTrue now (release i l).1 (forgotten i c)
  unfolding AreTrue forgotten
  release-AreTrue i free h j e k n = ground (arith, h j e)
  release-AreTrue i (held g x) h j e k n = ground (arith, equal-eq g i, equal_refl i, h j e)

  expire-AreTrue : (l : Lease) → AreTrue now l c → AreTrue now (expire now l) c
  unfolding AreTrue
  expire-AreTrue free h j e k n = h j e k n
  expire-AreTrue (held g x) h j e k n = ground (arith, h j e k n)

IsTrueWorld : ℤ → World → Type 0
IsTrueWorld id w = IsSoundAt id w.table × AreTrue w.now (lease_at id w.table) w.leases

pass-AreTrue : (now n : ℕ) (l : Lease) (c : Leases) → AreTrue now l c → AreTrue (now + n) l c
unfolding AreTrue
pass-AreTrue now n l c h j e k m = h j e k (omega arith)

-- The abstract operation's lease and answer are those of the store.
carried :
    (now : ℕ) (c : Leases) (i : Str) (o o' : Option ℕ) (l l' : Lease)
    → o ≡ o'
    → l ≡ l'
    → AreTrue now l' (noted i o' c)
    → AreTrue now l (noted i o c)
carried now c i o o' l l' p q h =
    subst (λ l. AreTrue now l (noted i o c)) (sym q)
      (subst (λ o. AreTrue now l' (noted i o c)) (sym p) h)

move-IsTrueWorld : (id : ℤ) (m : Move) (w : World) → IsTrueWorld id w → IsTrueWorld id (move id m w)
unfolding IsTrueWorld move
move-IsTrueWorld id (pass n) w h = (h.0, pass-AreTrue w.now n (lease_at id w.table) w.leases h.1)
move-IsTrueWorld id (take i d) w h =
    let l = lease_at id w.table in
    let (p, q, s) = (postgres_refines id i d w.now w.table h.0).0 in
    (
      s,
      carried w.now w.leases i _ _ _ _ p q
          (acquire-AreTrue w.now w.leases i (whole_seconds d) l h.1),
    )
move-IsTrueWorld id (beat i d) w h =
    let l = lease_at id w.table in
    let (p, q, s) = (postgres_refines id i d w.now w.table h.0).1 in
    (
      s,
      carried w.now w.leases i _ _ _ _ p q (renew-AreTrue w.now w.leases i (whole_seconds d) l h.1),
    )
move-IsTrueWorld id (give_up i) w h =
    let l = lease_at id w.table in
    let (p, q, s) = (postgres_refines id i 0 w.now w.table h.0).2 in
    (
      s,
      subst (λ l. AreTrue w.now l (forgotten i w.leases)) (sym q)
          (release-AreTrue w.now w.leases i l h.1),
    )
move-IsTrueWorld id clean w h =
    let l = lease_at id w.table in
    let (q, s) = (postgres_refines id [] 0 w.now w.table h.0).3 in
    (s, subst (λ l. AreTrue w.now l w.leases) (sym q) (expire-AreTrue w.now w.leases l h.1))

history-IsTrueWorld :
    (id : ℤ) (ms : List Move) (w : World) → IsTrueWorld id w → IsTrueWorld id (history id ms w)
unfolding history
history-IsTrueWorld id [] w h = h
history-IsTrueWorld id (m ∷ ms) w h =
    history-IsTrueWorld id ms (move id m w) (move-IsTrueWorld id m w h)

abbrev pub unleased : ℕ → Table → World
unleased now t = record { now = now; table = t; leases = λ _. none }

abbrev pub after : ℤ → ℕ → Table → List Move → World
after id now t ms = history id ms (unleased now t)

-- Mutual exclusion. Start where the lock's row is locked with a holder and a lease or neither, and no
-- instance has been given a lease. After any sequence of acquisitions, renewals, releases and cleanups
-- by any instances, with any lease durations and any time between them, two instances whose last
-- given leases are not over are the same instance.
pub history_exclusion :
    (id : ℤ) (now : ℕ) (t : Table) (ms : List Move) (i j : Str) (d e : ℕ)
    → IsSoundAt id t
    → (after id now t ms).leases i ≡ some d
    → (after id now t ms).leases j ≡ some e
    → (after id now t ms).now ≤ d
    → (after id now t ms).now ≤ e
    → i ≡ j
unfolding IsTrueWorld AreTrue
history_exclusion id now t ms i j d e s p q m n =
    let (_, h) = history-IsTrueWorld id ms (unleased now t) (s, λ k f x. ground arith) in
    let a = h i d p m in let b = h j e q n in ground arith
