-- ===== src/Provider/Session.antt =====
-- provider_run.go: `initialize` with its locks and its cleanup function, and the version table.
use pressly_goose_patches.Base.{
  ◌-◌, ◌+◌, Bool, true, false, ◌&&◌, Option, none, some, if◌then◌else◌,
}
use pressly_goose_patches.Int.{pos}
use pressly_goose_patches.Outcome.{Error, unsupported, Result, ok, err, Exec, pure, ◌>>=◌, ◌>>◌}
use pressly_goose_patches.Provider.{
  conn, tx, Locker, Provider, State, Attempt, done, retryable, given_up,
}
use pressly_goose_patches.Provider.Run.{Done, call, on_world, begin_tx}

abbrev pub Cleanup : Type 0 → Type 0
Cleanup W = State W → Option Error × State W

-- `multierr.Append` of an error that is not nil. It is not nil either: the first case is not met.
abbrev pub joined : {A : Type 0} → Error → Option Error → Result A
joined e none = err e
joined e (some e') = err e'

module _ {W : Type 0} (p : Provider W) where
  -- One round of `tryEnsureVersionTable`.
  unfoldable pub create_version_table : Exec (State W) Done
  create_version_table =
      if p.cfg.isolate_ddl
      then call (p.store.create_version_table conn) >> call (p.store.insert conn (pos 0))
      else begin_tx p (call (p.store.create_version_table tx) >> call (p.store.insert tx (pos 0)))

  unfoldable pub or_retry : Result Done × State W → Attempt × State W
  or_retry (ok _, s) = (done, s)
  or_retry (err e, s) = (retryable e, s)

  unfoldable pub create_attempt : State W → Attempt × State W
  unfolding create_version_table or_retry
  create_attempt s = or_retry (create_version_table s)

  unfoldable pub by_zero_version : Option Bool × Option Error × W → State W → Attempt × State W
  by_zero_version (some _, none, w) s = (done, record s { world = w })
  by_zero_version (_, _, w) s = create_attempt (record s { world = w })

  unfoldable pub after_exists : Result Bool × State W → Attempt × State W
  unfolding by_zero_version
  after_exists (ok true, s) = (done, s)
  after_exists (ok false, s) = create_attempt s
  after_exists (err unsupported, s) = by_zero_version (p.store.get_migration conn (pos 0) s.world) s
  after_exists (err e, s) = (given_up e, s)

  unfoldable pub table_attempt : State W → Attempt × State W
  unfolding after_exists
  table_attempt s = after_exists (on_world (p.store.table_exists conn) s)

  unfoldable pub try_ensure_version_table : Exec (State W) Done
  try_ensure_version_table = p.driver.retry_do 3 table_attempt

  -- `versionTableOnce` is set when its function returns, with an error or without.
  unfoldable pub ensure_version_table : Exec (State W) Done
  ensure_version_table s =
      if s.table_once
      then (ok tt, s)
      else let (r, s1) = try_ensure_version_table s in (r, record s1 { table_once = true })

  unfoldable pub lock_mu : State W → State W
  lock_mu s = record s { holders = s.holders + 1 }

  unfoldable pub unlock_mu : State W → State W
  unlock_mu s = record s { holders = s.holders - 1 }

  -- The three closures that `initialize` binds to `cleanup`.
  unfoldable pub close : Cleanup W
  unfolding unlock_mu
  close s = let (e, w) = p.driver.close_conn s.world in (e, record (unlock_mu s) { world = w })

  unfoldable pub unlock_and_close : Locker W → Cleanup W
  unfolding unlock_mu
  unlock_and_close l s =
      let (e1, w1) = l.unlock s.world in
      let (e2, w2) = p.driver.close_conn w1 in
      (p.driver.append_errors e1 e2, record (unlock_mu s) { world = w2 })

  unfoldable pub cleaned_up : {A : Type 0} → Error → Cleanup W → Exec (State W) A
  cleaned_up e cleanup s =
      let (e', s1) = cleanup s in (joined e (p.driver.append_errors (some e) e'), s1)

  unfoldable pub acquired : Locker W → Cleanup W → Option Error → Exec (State W) (Cleanup W)
  unfolding cleaned_up
  acquired l cleanup none = pure (unlock_and_close l)
  acquired l cleanup (some e) = cleaned_up e cleanup

  -- A lock of either kind: on success its own cleanup function replaces the one before.
  unfoldable pub acquire : Option (Locker W) → Cleanup W → Exec (State W) (Cleanup W)
  unfolding acquired
  acquire none cleanup s = (ok cleanup, s)
  acquire (some l) cleanup s =
      let (e, w) = l.lock s.world in acquired l cleanup e (record s { world = w })

  unfoldable pub acquire_locks : Bool → Cleanup W → Exec (State W) (Cleanup W)
  acquire_locks use_locker cleanup =
      if use_locker && p.cfg.lock_enabled
      then acquire p.cfg.session_locker cleanup >>= acquire p.cfg.locker
      else pure cleanup

  unfoldable pub ensured : Cleanup W → Result Done × State W → Result (Cleanup W) × State W
  ensured cleanup (ok _, s) = (ok cleanup, s)
  ensured cleanup (err e, s) = cleaned_up e cleanup s

  unfoldable pub with_table : Cleanup W → Exec (State W) (Cleanup W)
  unfolding ensured
  with_table cleanup s =
      if p.cfg.disable_versioning then (ok cleanup, s) else ensured cleanup (ensure_version_table s)

  unfoldable pub opened : Bool → Option Error → Exec (State W) (Cleanup W)
  unfolding unlock_mu
  opened use_locker (some e) s = (err e, unlock_mu s)
  opened use_locker none s = (acquire_locks use_locker close >>= with_table) s

  unfoldable pub initialize : Bool → Exec (State W) (Cleanup W)
  unfolding lock_mu opened
  initialize use_locker s =
      let (e, w) = p.driver.open_conn s.world in
      opened use_locker e (record (lock_mu s) { world = w })

  -- The deferred function of the methods: the error of `cleanup` joins that of the method. A result
  -- that Go returns beside that error is left out.
  unfoldable pub after_cleanup : {A : Type 0} → Result A → Option Error → Result A
  after_cleanup (ok a) none = ok a
  after_cleanup (ok a) (some e) = err e
  after_cleanup (err e) e' = joined e e'

  unfoldable pub appended : {A : Type 0} → Result A → Option Error → Option Error
  appended (ok a) e' = p.driver.append_errors none e'
  appended (err e) e' = p.driver.append_errors (some e) e'

  unfoldable pub deferred : {A : Type 0} → Cleanup W → Result A × State W → Result A × State W
  unfolding after_cleanup appended
  deferred cleanup (r, s) = let (e', s1) = cleanup s in (after_cleanup r (appended r e'), s1)

  unfoldable pub in_session :
      {A : Type 0}
      → (Error → Error)
      → Exec (State W) A
      → Result (Cleanup W) × State W
      → Result A × State W
  in_session wrap body (err e, s) = (err (wrap e), s)
  in_session wrap body (ok cleanup, s) = deferred cleanup (body s)

  -- `initialize`, its error wrapped, the body of a method, and the deferred cleanup.
  unfoldable pub with_session :
      {A : Type 0} → Bool → (Error → Error) → Exec (State W) A → Exec (State W) A
  unfolding in_session
  with_session use_locker wrap body s = in_session wrap body (initialize use_locker s)
