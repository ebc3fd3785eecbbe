-- ===== src/Provider/Quiet.antt =====
-- `initialize` and its cleanup function leave an existing version table as it is.
use pressly_goose_patches.Base.{
  ◌≡◌, ◌≢◌, refl, Bool-cases, Option-cases, ◌&&◌, Bool, List, Option, none, some, inl, inr, arith,
}
use pressly_goose_patches.Int.{ℤ}
use pressly_goose_patches.Outcome.{Error, Result, ok, err, Exec, Exec-cases, >>=-eq-ok, pure}
use pressly_goose_patches.Provider.{Provider, State, Locker, done}
use pressly_goose_patches.Provider.Session.{
  Cleanup, table_attempt, after_exists, try_ensure_version_table, ensure_version_table, lock_mu,
  unlock_mu, close, unlock_and_close, cleaned_up, acquired, acquire, acquire_locks, ensured,
  with_table, opened, initialize, after_cleanup, appended, deferred, in_session, with_session,
}
use pressly_goose_patches.Provider.Ledger.{Ledger, LockerKeeps}

module _ {W : Type 0} (p : Provider W) (versions : W → List ℤ) (law : Ledger p versions) where
  abbrev IsQuiet : Cleanup W → Type 0
  IsQuiet c = (s : State W) → versions (c s).1.world ≡ versions s.world

  -- What is known where a session's step has succeeded.
  abbrev Held : State W → State W → Cleanup W → Type 0
  Held s t c = (versions t.world ≡ versions s.world) × IsQuiet c

  close-IsQuiet : IsQuiet (close p)
  unfolding close unlock_mu
  close-IsQuiet s = law.close_keeps s.world

  unlock-IsQuiet : (l : Locker W) → LockerKeeps versions (some l) → IsQuiet (unlock_and_close p l)
  unfolding unlock_and_close unlock_mu
  unlock-IsQuiet l k s = ground (arith, k s.world, law.close_keeps (l.unlock s.world).1)

  not_cleaned_up :
      {A : Type 0} (e : Error) (c : Cleanup W) (s t : State W) (a : A)
      → cleaned_up p e c s ≢ (ok a, t)
  unfolding cleaned_up
  not_cleaned_up e c s t a h = elim (Option-cases (p.driver.append_errors (some e) (c s).0)) [
    | inl none_eq ↦ ground arith
    | inr (e', some_eq) ↦ ground arith
  ]

  Held-by :
      (s u t : State W) (c c' : Cleanup W)
      → pure c u ≡ (ok c', t)
      → versions u.world ≡ versions s.world
      → IsQuiet c
      → Held s t c'
  Held-by s u t c c' h e q = (ground arith, λ s'. cc (q s', h))

  acquire-Held :
      (o : Option (Locker W)) (c : Cleanup W) (s t : State W) (c' : Cleanup W)
      → LockerKeeps versions o
      → IsQuiet c
      → acquire p o c s ≡ (ok c', t)
      → Held s t c'
  unfolding acquire acquired
  acquire-Held none c s t c' k q h = Held-by s s t c c' h refl q
  acquire-Held (some l) c s t c' k q h = elim (Option-cases (l.lock s.world).0) [
    | inl none_eq ↦
        let s1 = record s { world = (l.lock s.world).1 } in
        Held-by s s1 t (unlock_and_close p l) c' (ground arith) (k s.world).0 (unlock-IsQuiet l k)
    | inr (e, some_eq) ↦
        let s1 = record s { world = (l.lock s.world).1 } in
        absurd (not_cleaned_up e c s1 t c' (ground arith))
  ]

  table_attempt-done :
      (s : State W)
      → (table_attempt p s).0 ≡ done × (versions (table_attempt p s).1.world ≡ versions s.world)
  unfolding table_attempt after_exists
  table_attempt-done s = ground (arith, law.table_exists_keeps s.world)

  ensure-ok :
      (s : State W)
      → ((ensure_version_table p s).0 ≡ ok tt)
        × (versions (ensure_version_table p s).1.world ≡ versions s.world)
  unfolding ensure_version_table try_ensure_version_table
  ensure-ok s = elim (Bool-cases s.table_once) [
    | inl before ↦ rw before (refl, refl)
    | inr first ↦
        let (settled, same) = table_attempt-done s in
        let e = law.retry_done 3 (table_attempt p) s (table_attempt p s).1 (ground arith) in
        rw first (ground (arith, e))
  ]

  with_table-Held :
      (c : Cleanup W) (s t : State W) (c' : Cleanup W)
      → IsQuiet c
      → with_table p c s ≡ (ok c', t)
      → Held s t c'
  unfolding with_table ensured
  with_table-Held c s t c' q h = elim (Bool-cases p.cfg.disable_versioning) [
    | inl off ↦ Held-by s s t c c' (ground arith) refl q
    | inr on ↦
        let (fine, same) = ensure-ok s in
        Held-by s (ensure_version_table p s).1 t c c' (ground arith) same q
  ]

  acquire_locks-Held :
      (use_locker : Bool) (s t : State W) (c c' : Cleanup W)
      → IsQuiet c
      → acquire_locks p use_locker c s ≡ (ok c', t)
      → Held s t c'
  unfolding acquire_locks
  acquire_locks-Held use_locker s t c c' q h =
      elim (Bool-cases (use_locker && p.cfg.lock_enabled)) [
        | inl wanted ↦
            let (c1, u, e, e') =
              >>=-eq-ok (acquire p p.cfg.session_locker c) (acquire p p.cfg.locker) s {b = c'}
                {t = t} (ground arith) in
            let (same, quiet) =
              acquire-Held p.cfg.session_locker c s u c1 law.session_locker_keeps q e in
            let (same', quiet') = acquire-Held p.cfg.locker c1 u t c' law.locker_keeps quiet e' in
            (cc (same, same'), quiet')
        | inr unlocked ↦ Held-by s s t c c' (ground arith) refl q
      ]

  initialize-Held :
      (use_locker : Bool) (s t : State W) (c : Cleanup W)
      → initialize p use_locker s ≡ (ok c, t)
      → Held s t c
  unfolding initialize opened lock_mu
  initialize-Held use_locker s t c h = elim (Option-cases (p.driver.open_conn s.world).0) [
    | inl none_eq ↦
        let s1 = record (lock_mu p s) { world = (p.driver.open_conn s.world).1 } in
        let (c1, u, e, e') =
          >>=-eq-ok (acquire_locks p use_locker (close p)) (with_table p) s1 {b = c} {t = t}
            (ground arith) in
        let (same, quiet) = acquire_locks-Held use_locker s1 u (close p) c1 close-IsQuiet e in
        let (same', quiet') = with_table-Held c1 u t c quiet e' in
        (ground (arith, law.open_keeps s.world), quiet')
    | inr (e, some_eq) ↦ ground arith
  ]

  after_cleanup-ok :
      {A : Type 0} (r : Result A) (e : Option Error) (a : A) → after_cleanup p r e ≡ ok a → r ≡ ok a
  unfolding after_cleanup
  after_cleanup-ok (ok b) none a h = h
  after_cleanup-ok (ok b) (some e) a h = cc
  after_cleanup-ok (err e') none a h = cc
  after_cleanup-ok (err e') (some e) a h = cc

  -- The cleanup turns no failure into a success.
  deferred-ok :
      {A : Type 0} (c : Cleanup W) (x : Result A × State W) (t : State W) (a : A)
      → deferred p c x ≡ (ok a, t)
      → (x ≡ (ok a, x.1)) × (t ≡ (c x.1).1)
  unfolding deferred
  deferred-ok c (r, u) t a h =
      let fine = after_cleanup-ok r (appended p r (c u).0) a (ground arith) in
      (ground (arith, fine), ground arith)

  -- Inversion of a session that succeeds.
  pub with_session-eq-ok :
      {A : Type 0} (use_locker : Bool) (wrap : Error → Error) (m : Exec (State W) A)
      → (s t : State W) (a : A) → with_session p use_locker wrap m s ≡ (ok a, t)
      → (u v : State W) × (m u ≡ (ok a, v))
        × (versions u.world ≡ versions s.world)
        × (versions t.world ≡ versions v.world)
  unfolding with_session in_session
  with_session-eq-ok use_locker wrap m s t a h = elim (Exec-cases (initialize p use_locker s)) [
    | inl (c, u, e) ↦
        let (same, quiet) = initialize-Held use_locker s u c e in
        let (fine, last) = deferred-ok c (m u) t a (ground arith) in
        (u, (m u).1, fine, same, ground (arith, quiet (m u).1))
    | inr (e, u, eq) ↦ ground arith
  ]
