-- ===== src/Provider/Release.antt =====
-- The sessions of provider_run.go and the methods of provider.go release the mutex that they lock.
use pressly_goose_patches.Base.{
  ◌≡◌, refl, sym, subst, ℕ, ◌+◌, ◌-◌, Bool-cases, Option-cases, ◌&&◌, Bool, true, false, Option,
  none, some, inl, inr, arith, if◌then◌else◌,
}
use pressly_goose_patches.Int.{pos}
use pressly_goose_patches.Outcome.{
  Error, Result, ok, err, Exec, continue, ◌>>=◌, ◌>>◌, pure, unsupported,
}
use pressly_goose_patches.Provider.{conn, tx, Provider, State, Locker, Attempt}
use pressly_goose_patches.Provider.Run.{Done, call, on_world, begin_tx}
use pressly_goose_patches.Provider.Session.{
  Cleanup, create_version_table, or_retry, create_attempt, by_zero_version, after_exists,
  table_attempt, try_ensure_version_table, ensure_version_table, lock_mu, unlock_mu, close,
  unlock_and_close, cleaned_up, acquired, acquire, acquire_locks, ensured, with_table, opened,
  initialize, deferred, in_session, with_session,
}
use pressly_goose_patches.Provider.Mutex.{
  IsBalanced, then-IsBalanced, if-IsBalanced, begin_tx-IsBalanced,
}

-- A step of the retried function and its retries.
abbrev pub RetriesBalanced : {W : Type 0} → Provider W → Type 0
RetriesBalanced {W = W} p =
    (n : ℕ) (f : State W → Attempt × State W)
    → ((s : State W) → s.holders ≡ (f s).1.holders)
    → (s : State W) → s.holders ≡ (p.driver.retry_do n f s).1.holders

module _ {W : Type 0} (p : Provider W) (retries : RetriesBalanced p) where
  create_table-IsBalanced : IsBalanced p (create_version_table p)
  unfolding create_version_table
  create_table-IsBalanced =
      if-IsBalanced p p.cfg.isolate_ddl
        (call (p.store.create_version_table conn) >> call (p.store.insert conn (pos 0)))
        (begin_tx p (call (p.store.create_version_table tx) >> call (p.store.insert tx (pos 0))))
        (then-IsBalanced p (call (p.store.create_version_table conn))
          (λ _. call (p.store.insert conn (pos 0))) (record { at = λ s. refl })
          (λ _. record { at = λ s. refl }))
        (begin_tx-IsBalanced p
          (call (p.store.create_version_table tx) >> call (p.store.insert tx (pos 0)))
          (then-IsBalanced p (call (p.store.create_version_table tx))
            (λ _. call (p.store.insert tx (pos 0))) (record { at = λ s. refl })
            (λ _. record { at = λ s. refl })))

  or_retry-holders : (x : Result Done × State W) → x.1.holders ≡ (or_retry p x).1.holders
  unfolding or_retry
  or_retry-holders (ok _, s) = refl
  or_retry-holders (err e, s) = refl

  create_attempt-holders : (s : State W) → s.holders ≡ (create_attempt p s).1.holders
  unfolding create_attempt
  create_attempt-holders s =
      cc (create_table-IsBalanced.at s, or_retry-holders (create_version_table p s))

  by_zero-holders :
      (x : Option Bool × Option Error × W) (s : State W)
      → s.holders ≡ (by_zero_version p x s).1.holders
  unfolding by_zero_version
  by_zero-holders (some _, none, w) s = refl
  by_zero-holders (none, e, w) s = create_attempt-holders (record s { world = w })
  by_zero-holders (some _, some e, w) s = create_attempt-holders (record s { world = w })

  after_exists-holders : (x : Result Bool × State W) → x.1.holders ≡ (after_exists p x).1.holders
  unfolding after_exists
  after_exists-holders (ok true, s) = refl
  after_exists-holders (ok false, s) = create_attempt-holders s
  after_exists-holders (err unsupported, s) =
      by_zero-holders (p.store.get_migration conn (pos 0) s.world) s
  after_exists-holders (err e, s) = ground arith

  ensure-IsBalanced : IsBalanced p (ensure_version_table p)
  unfolding ensure_version_table try_ensure_version_table table_attempt
  ensure-IsBalanced = record {
    at = λ s. ground (
      arith,
      retries 3 (table_attempt p)
          (λ s. after_exists-holders (on_world (p.store.table_exists conn) s)) s,
    );
  }

  -- A cleanup function unlocks the mutex once.
  abbrev Releases : Cleanup W → Type 0
  Releases c = (s : State W) → (c s).1.holders ≡ s.holders - 1

  -- The mutex at the end of a step that was entered with it locked once more than at `n`: still so,
  -- beside a cleanup function that unlocks it; or unlocked, beside an error.
  abbrev IsHeld : ℕ → Result (Cleanup W) × State W → Type 0
  IsHeld n (ok c, t) = (t.holders ≡ n + 1) × Releases c
  IsHeld n (err e, t) = t.holders ≡ n

  close-Releases : Releases (close p)
  unfolding close unlock_mu
  close-Releases s = refl

  unlock-Releases : (l : Locker W) → Releases (unlock_and_close p l)
  unfolding unlock_and_close unlock_mu
  unlock-Releases l s = refl

  cleaned_up-IsHeld :
      (n : ℕ) (e : Error) (c : Cleanup W) (s : State W)
      → s.holders ≡ n + 1
      → Releases c
      → IsHeld n (cleaned_up p e c s)
  unfolding cleaned_up
  cleaned_up-IsHeld n e c s h k = elim (Option-cases (p.driver.append_errors (some e) (c s).0)) [
    | inl none_eq ↦ rw none_eq (ground (arith, k s))
    | inr (e', some_eq) ↦ rw some_eq (ground (arith, k s))
  ]

  acquired-IsHeld :
      (n : ℕ) (l : Locker W) (c : Cleanup W) (e : Option Error) (s : State W)
      → s.holders ≡ n + 1
      → Releases c
      → IsHeld n (acquired p l c e s)
  unfolding acquired
  acquired-IsHeld n l c none s h k = (h, unlock-Releases l)
  acquired-IsHeld n l c (some e) s h k = cleaned_up-IsHeld n e c s h k

  acquire-IsHeld :
      (n : ℕ) (o : Option (Locker W)) (c : Cleanup W) (s : State W)
      → s.holders ≡ n + 1
      → Releases c
      → IsHeld n (acquire p o c s)
  unfolding acquire
  acquire-IsHeld n none c s h k = (h, k)
  acquire-IsHeld n (some l) c s h k =
      acquired-IsHeld n l c (l.lock s.world).0 (record s { world = (l.lock s.world).1 }) h k

  -- A step after one that may have failed.
  next-IsHeld :
      (n : ℕ) (x : Result (Cleanup W) × State W) (f : Cleanup W → Exec (State W) (Cleanup W))
      → IsHeld n x
      → ((c : Cleanup W) (t : State W) → t.holders ≡ n + 1 → Releases c → IsHeld n (f c t))
      → IsHeld n (continue x.0 f x.1)
  next-IsHeld n (ok c, t) f h k = k c t h.0 h.1
  next-IsHeld n (err e, t) f h k = h

  locks-IsHeld :
      (n : ℕ) (use_locker : Bool) (c : Cleanup W) (s : State W)
      → s.holders ≡ n + 1
      → Releases c
      → IsHeld n (acquire_locks p use_locker c s)
  unfolding acquire_locks
  locks-IsHeld n use_locker c s h k = elim (Bool-cases (use_locker && p.cfg.lock_enabled)) [
    | inl wanted ↦
        subst
          (λ b.
            IsHeld n (
              (if b then acquire p p.cfg.session_locker c >>= acquire p p.cfg.locker else pure c)
                s))
          (sym wanted)
          (next-IsHeld n (acquire p p.cfg.session_locker c s) (acquire p p.cfg.locker)
            (acquire-IsHeld n p.cfg.session_locker c s h k) (acquire-IsHeld n p.cfg.locker))
    | inr unlocked ↦
        subst
          (λ b.
            IsHeld n (
              (if b then acquire p p.cfg.session_locker c >>= acquire p p.cfg.locker else pure c)
                s))
          (sym unlocked) (h, k)
  ]

  ensured-IsHeld :
      (n : ℕ) (c : Cleanup W) (x : Result Done × State W)
      → x.1.holders ≡ n + 1
      → Releases c
      → IsHeld n (ensured p c x)
  unfolding ensured
  ensured-IsHeld n c (ok _, s) h k = (h, k)
  ensured-IsHeld n c (err e, s) h k = cleaned_up-IsHeld n e c s h k

  table-IsHeld :
      (n : ℕ) (c : Cleanup W) (s : State W)
      → s.holders ≡ n + 1
      → Releases c
      → IsHeld n (with_table p c s)
  unfolding with_table
  table-IsHeld n c s h k = choose p.cfg.disable_versioning
    where
      choose :
          (b : Bool) → IsHeld n (if b then (ok c, s) else ensured p c (ensure_version_table p s))
      choose true = (h, k)
      choose false =
          ensured-IsHeld n c (ensure_version_table p s) (cc (h, ensure-IsBalanced.at s)) k

  opened-IsHeld :
      (use_locker : Bool) (e : Option Error) (n : ℕ) (s : State W)
      → s.holders ≡ n + 1
      → IsHeld n (opened p use_locker e s)
  unfolding opened unlock_mu
  opened-IsHeld use_locker (some e) n s h = omega arith
  opened-IsHeld use_locker none n s h =
      next-IsHeld n (acquire_locks p use_locker (close p) s) (with_table p)
        (locks-IsHeld n use_locker (close p) s h close-Releases) (table-IsHeld n)

  initialize-IsHeld :
      (use_locker : Bool) (s : State W) → IsHeld s.holders (initialize p use_locker s)
  unfolding initialize lock_mu
  initialize-IsHeld use_locker s =
      opened-IsHeld use_locker (p.driver.open_conn s.world).0 s.holders _ refl

  in_session-holders :
      {A : Type 0} (n : ℕ) (wrap : Error → Error) (m : Exec (State W) A)
      (x : Result (Cleanup W) × State W)
      → IsBalanced p m
      → IsHeld n x
      → n ≡ (in_session p wrap m x).1.holders
  unfolding in_session deferred
  in_session-holders n wrap m (err e, s) k h = sym h
  in_session-holders n wrap m (ok c, s) k h = omega (arith, h.0, h.1 (m s).1, k.at s)

  pub with_session-IsBalanced :
      {A : Type 0} (use_locker : Bool) (wrap : Error → Error) (m : Exec (State W) A)
      → IsBalanced p m
      → IsBalanced p (with_session p use_locker wrap m)
  unfolding with_session
  with_session-IsBalanced use_locker wrap m k = record {
    at = λ s.
        in_session-holders s.holders wrap m (initialize p use_locker s) k
          (initialize-IsHeld use_locker s);
  }
