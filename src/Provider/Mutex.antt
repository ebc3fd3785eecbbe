-- ===== src/Provider/Mutex.antt =====
-- The mutex of the provider: provider_run.go locks it in `initialize` and unlocks it in the cleanup
-- functions.
use pressly_goose_patches.Base.{
  ◌≡◌, refl, not, ◌&&◌, ◌||◌, Bool, true, false, List, [], ◌∷◌, ◌++◌, Option, none, some, arith,
  if◌then◌else◌,
}
use pressly_goose_patches.Text.{Str}
use pressly_goose_patches.Int.{ℤ}
use pressly_goose_patches.VersionMap.{lookup}
use pressly_goose_patches.SqlParser.{Direction, to_bool}
use pressly_goose_patches.Outcome.{
  MigrationType, type_go, type_sql, type_other, Result, ok, err, Exec, Keeps, Keeps-bind, ◌>>=◌,
  ◌>>◌, pure, lift, MigrationResult,
}
use pressly_goose_patches.Provider.{
  conn, db, tx, GoAction, Handle, Migration, ParsedSql, Provider, State,
}
use pressly_goose_patches.Provider.Run
use pressly_goose_patches.Provider.Run.{
  Done, call, on_world, exec_all, run_parsed, run_sql, run_go, run_go_action, run_type,
  run_migration, maybe_insert_or_delete, roll_back, or_roll_back, commit_tx, in_tx, begin_tx,
  run_and_record, choose_tx, run_individually, without_tx, prepare_migration, prepare_type,
  prepare_go, prepare_sql, remember,
}
use pressly_goose_patches.Provider.Batch.{
  run_migrations, prepare_all, run_all, run_one, log_version, chosen, reported, max_version_on_conn,
  latest_version, result_of,
}

module _ {W : Type 0} (p : Provider W) where
  -- The mutex is as often locked after the action as before.
  abbrev pub IsBalanced : {A : Type 0} → Exec (State W) A → Type 0
  IsBalanced m = Keeps (λ s t. s.holders ≡ t.holders) m

  pub then-IsBalanced :
      {A B : Type 0} (m : Exec (State W) A) (f : A → Exec (State W) B)
      → IsBalanced m
      → ((a : A) → IsBalanced (f a))
      → IsBalanced (m >>= f)
  then-IsBalanced m f h k =
      Keeps-bind (λ s t. s.holders ≡ t.holders) (λ s. refl) (λ s t u e e'. cc) m f h k

  pub if-IsBalanced :
      {A : Type 0} (b : Bool) (m n : Exec (State W) A)
      → IsBalanced m
      → IsBalanced n
      → IsBalanced (if b then m else n)
  if-IsBalanced true m n h k = h
  if-IsBalanced false m n h k = k

  exec_all-IsBalanced : (h : Handle) (stmts : List Str) → IsBalanced (exec_all p h stmts)
  unfolding exec_all
  exec_all-IsBalanced h [] = record { at = λ s. refl }
  exec_all-IsBalanced h (stmt ∷ stmts) =
      then-IsBalanced (call (p.driver.exec h stmt)) (λ _. exec_all p h stmts)
        (record { at = λ s. refl }) (λ _. exec_all-IsBalanced h stmts)

  run_parsed-IsBalanced :
      (h : Handle) (b : Bool) (r : Option ParsedSql) → IsBalanced (run_parsed p h b r)
  unfolding run_parsed
  run_parsed-IsBalanced h b none = record { at = λ s. refl }
  run_parsed-IsBalanced h b (some r) = exec_all-IsBalanced h _

  run_go_action-IsBalanced : (f : Option (GoAction W)) → IsBalanced (run_go_action p f)
  unfolding run_go_action
  run_go_action-IsBalanced none = record { at = λ s. refl }
  run_go_action-IsBalanced (some f) = record { at = λ s. refl }

  run_go-IsBalanced : (h : Handle) (m : Migration W) (b : Bool) → IsBalanced (run_go p h m b)
  unfolding run_go
  run_go-IsBalanced conn m b = record { at = λ s. refl }
  run_go-IsBalanced db m b =
      run_go_action-IsBalanced (if b then m.go_up.run_db else m.go_down.run_db)
  run_go-IsBalanced tx m b =
      run_go_action-IsBalanced (if b then m.go_up.run_tx else m.go_down.run_tx)

  run_type-IsBalanced :
      (ty : MigrationType) (h : Handle) (m : Migration W) (b : Bool)
      → IsBalanced (run_type p ty h m b)
  unfolding run_type run_sql
  run_type-IsBalanced type_go h m b = run_go-IsBalanced h m b
  run_type-IsBalanced type_sql h m b = record {
    at = λ s. (run_parsed-IsBalanced h b (lookup m.version s.parsed)).at s;
  }
  run_type-IsBalanced (type_other ty) h m b = record { at = λ s. refl }

  record-IsBalanced : (h : Handle) (v : ℤ) (b : Bool) → IsBalanced (maybe_insert_or_delete p h v b)
  unfolding maybe_insert_or_delete
  record-IsBalanced h v b = record { at = λ s. ground arith }

  run_and_record-IsBalanced :
      (h : Handle) (m : Migration W) (b : Bool) → IsBalanced (run_and_record p h m b)
  unfolding run_and_record run_migration
  run_and_record-IsBalanced h m b =
      then-IsBalanced (run_migration p h m b) (λ _. maybe_insert_or_delete p h m.version b)
        (run_type-IsBalanced m.type h m b) (λ _. record-IsBalanced h m.version b)

  or_roll_back-holders :
      (r : Result Done) (s : State W) → s.holders ≡ (or_roll_back p r s).1.holders
  unfolding or_roll_back roll_back
  or_roll_back-holders (ok _) s = refl
  or_roll_back-holders (err e) s = refl

  commit_tx-holders : (r : Result Done) (s : State W) → s.holders ≡ (commit_tx p r s).1.holders
  unfolding commit_tx
  commit_tx-holders (ok _) s = refl
  commit_tx-holders (err e) s = refl

  in_tx-holders :
      (fn : Exec (State W) Done) (s : State W)
      → s.holders ≡ (fn s).1.holders
      → s.holders ≡ (in_tx p fn s).1.holders
  unfolding in_tx
  in_tx-holders fn s h =
      let c = commit_tx-holders (fn s).0 (fn s).1 in
      let r =
        or_roll_back-holders (commit_tx p (fn s).0 (fn s).1).0 (commit_tx p (fn s).0 (fn s).1).1 in
      cc (h, c, r)

  pub begin_tx-IsBalanced : (fn : Exec (State W) Done) → IsBalanced fn → IsBalanced (begin_tx p fn)
  unfolding begin_tx
  begin_tx-IsBalanced fn h =
      then-IsBalanced (call p.driver.begin) (λ _. in_tx p fn) (record { at = λ s. refl })
        (λ _. record { at = λ s. in_tx-holders fn s (h.at s) })

  without_tx-IsBalanced :
      (ty : MigrationType) (m : Migration W) (b : Bool) → IsBalanced (without_tx p ty m b)
  unfolding without_tx
  without_tx-IsBalanced type_go m b = run_and_record-IsBalanced db m b
  without_tx-IsBalanced type_sql m b = run_and_record-IsBalanced conn m b
  without_tx-IsBalanced (type_other ty) m b = record { at = λ s. refl }

  choose_tx-IsBalanced : (m : Migration W) (b wanted : Bool) → IsBalanced (choose_tx p m b wanted)
  unfolding choose_tx
  choose_tx-IsBalanced m b wanted =
      if-IsBalanced (wanted && not p.cfg.isolate_ddl) (begin_tx p (run_and_record p tx m b))
        (without_tx p m.type m b)
        (begin_tx-IsBalanced (run_and_record p tx m b) (run_and_record-IsBalanced tx m b))
        (without_tx-IsBalanced m.type m b)

  run_individually-IsBalanced : (m : Migration W) (b : Bool) → IsBalanced (run_individually p m b)
  unfolding run_individually
  run_individually-IsBalanced m b = record {
    at = λ s.
        (then-IsBalanced (lift (Run.use_tx p m b s)) (choose_tx p m b) (record { at = λ t. refl })
            (choose_tx-IsBalanced m b)).at
          s;
  }

  reported-state :
      (rs : List MigrationResult) (r : MigrationResult) (x : Result Done × State W)
      → x.1 ≡ (reported p rs r x).1
  unfolding reported
  reported-state rs r (ok _, s) = refl
  reported-state rs r (err e, s) = refl

  run_all-IsBalanced :
      (d : Direction) (rs : List MigrationResult) (ms : List (Migration W))
      → IsBalanced (run_all p d rs ms)
  unfolding run_all run_one
  run_all-IsBalanced d rs [] = record { at = λ s. refl }
  run_all-IsBalanced d rs (m ∷ ms) =
      then-IsBalanced (run_one p d rs m) (λ r. run_all p d (rs ++ r ∷ []) ms)
        (record {
          at = λ s. cc (
            (run_individually-IsBalanced m (to_bool d)).at s,
            reported-state rs (result_of p m d s) (run_individually p m (to_bool d) s),
          );
        })
        (λ r. run_all-IsBalanced d (rs ++ r ∷ []) ms)

  remember-holders :
      (m : Migration W) (r : Result ParsedSql) (s : State W)
      → s.holders ≡ (remember p m r s).1.holders
  unfolding remember
  remember-holders m (ok parsed) s = refl
  remember-holders m (err e) s = refl

  prepare_sql-holders :
      (m : Migration W) (o : Option ParsedSql) (s : State W)
      → s.holders ≡ (prepare_sql p m o s).1.holders
  unfolding prepare_sql
  prepare_sql-holders m none s =
      remember-holders m (Run.parse_all_from_fs p.driver m.source s.world) s
  prepare_sql-holders m (some parsed) s = refl

  prepare_type-IsBalanced :
      (ty : MigrationType) (m : Migration W) (b : Bool) → IsBalanced (prepare_type p ty m b)
  unfolding prepare_type prepare_go
  prepare_type-IsBalanced type_go m b = record { at = λ s. ground arith }
  prepare_type-IsBalanced type_sql m b = record {
    at = λ s. prepare_sql-holders m (lookup m.version s.parsed) s;
  }
  prepare_type-IsBalanced (type_other ty) m b = record { at = λ s. refl }

  prepare_all-IsBalanced :
      (d : Direction) (ms : List (Migration W)) → IsBalanced (prepare_all p d ms)
  unfolding prepare_all prepare_migration
  prepare_all-IsBalanced d [] = record { at = λ s. refl }
  prepare_all-IsBalanced d (m ∷ ms) =
      then-IsBalanced (prepare_migration p m (to_bool d)) (λ _. prepare_all p d ms)
        (prepare_type-IsBalanced m.type m (to_bool d)) (λ _. prepare_all-IsBalanced d ms)

  latest_version-holders : (x : Result ℤ × State W) → x.1.holders ≡ (latest_version p x).1.holders
  unfolding latest_version
  latest_version-holders (ok v, s) = refl
  latest_version-holders (err e, s) = ground arith

  pub max_version-IsBalanced : IsBalanced (max_version_on_conn p)
  unfolding max_version_on_conn
  max_version-IsBalanced = record {
    at = λ s. latest_version-holders (on_world (p.store.get_latest_version conn) s);
  }

  log_version-IsBalanced : (skip : Bool) → IsBalanced (log_version p skip)
  unfolding log_version
  log_version-IsBalanced true = record { at = λ s. refl }
  log_version-IsBalanced false =
      then-IsBalanced (max_version_on_conn p) (λ _. pure tt) max_version-IsBalanced
        (λ _. record { at = λ s. refl })

  pub run_migrations-IsBalanced :
      (ms : List (Migration W)) (d : Direction) (by_one : Bool)
      → IsBalanced (run_migrations p ms d by_one)
  unfolding run_migrations
  run_migrations-IsBalanced [] d by_one =
      then-IsBalanced (log_version p p.cfg.disable_versioning) (λ _. pure [])
        (log_version-IsBalanced p.cfg.disable_versioning) (λ _. record { at = λ s. refl })
  run_migrations-IsBalanced (m ∷ ms) d by_one =
      let apply = chosen p by_one (m ∷ ms) in
      let skip = p.cfg.disable_versioning || by_one in
      then-IsBalanced (prepare_all p d apply)
        (λ _. run_all p d [] apply >>= λ results. log_version p skip >> pure results)
        (prepare_all-IsBalanced d apply)
        (λ _.
          then-IsBalanced (run_all p d [] apply) (λ results. log_version p skip >> pure results)
            (run_all-IsBalanced d [] apply)
            (λ results.
              then-IsBalanced (log_version p skip) (λ _. pure results) (log_version-IsBalanced skip)
                (λ _. record { at = λ s. refl })))
