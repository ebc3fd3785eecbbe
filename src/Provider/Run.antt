-- ===== src/Provider/Run.antt =====
-- provider_run.go: how one migration is prepared and run.
use pressly_goose_patches.Base.{
  Bool, true, false, not, ◌&&◌, ◌||◌, List, [], ◌∷◌, Option, none, some, if◌then◌else◌, is_nil,
  ◌==◌,
}
use pressly_goose_patches.Int.{ℤ}
use pressly_goose_patches.VersionMap.{lookup, insert}
use pressly_goose_patches.Text.{Str}
use pressly_goose_patches.SqlParser
use pressly_goose_patches.SqlParser.{Direction, direction_up, direction_down}
use pressly_goose_patches.SqlParser.Machine.{parse_lines}
use pressly_goose_patches.Outcome.{
  MigrationType, type_go, type_sql, type_other, Error, panicked, open_failed, parse_failed,
  mode_not_set, deadlock_detected, invalid_type, conn_not_supported, not_parsed, Result, ok, err,
  Exec, pure, fail, lift, ◌>>=◌, ◌>>◌,
}
use pressly_goose_patches.Provider.{
  TransactionMode, mode_unset, transaction_enabled, GoOutcome, returned, panics, GoAction,
  Migration, ParsedSql, Handle, conn, db, tx, Call, Driver, Provider, State,
}

abbrev pub Done : Type 0
Done = Unit {0}

-- A Go function's last result: no error, or an error.
abbrev pub settle : Option Error → Result Done
settle none = ok tt
settle (some e) = err e

abbrev pub is_some {ℓ} : {A : Type ℓ} → Option A → Bool
is_some none = false
is_some (some a) = true

both : Result (List Str × Bool) → Result (List Str × Bool) → Result ParsedSql
both (err e) down = err e
both (ok (up, use_tx)) (err e) = err e
both (ok (up, use_tx)) (ok (down, _)) = ok (record { use_tx = use_tx; up = up; down = down })

unfoldable pub is_mode_unset : TransactionMode → Bool
is_mode_unset mode_unset = true
is_mode_unset _ = false

unfoldable pub is_enabled : TransactionMode → Bool
is_enabled transaction_enabled = true
is_enabled _ = false

module _ {W : Type 0} where
  abbrev pub call : Call W → Exec (State W) Done
  call c s = (settle (c s.world).0, record s { world = (c s.world).1 })

  abbrev pub on_world : {A : Type 0} → Exec W A → Exec (State W) A
  on_world f s = ((f s.world).0, record s { world = (f s.world).1 })

  -- The deferred function of `parse`, which adds the error of closing the file.
  closed : Driver W → Option Error → Result (List Str × Bool) → Result (List Str × Bool)
  closed d e (ok r) = elim (d.append_errors none e) [ none ↦ ok r | some x ↦ err x ]
  closed d e (err x) = elim (d.append_errors (some x) e) [ none ↦ ok ([], false) | some y ↦ err y ]

  -- `parse` of internal/sqlparser/parse.go.
  parse_opened :
      Driver W → Direction → Option Error → Option (List Str × Bool) → Result (List Str × Bool)
  unfolding closed
  parse_opened d dir e none = err open_failed
  parse_opened d dir e (some (lines, failed)) = elim (parse_lines d.expand dir lines failed) [
    | SqlParser.ok r ↦ closed d e (ok r)
    | SqlParser.err x ↦ closed d e (err (parse_failed x))
  ]

  unfoldable pub parse : Driver W → Str → Direction → W → Result (List Str × Bool)
  unfolding parse_opened
  parse d path dir w = parse_opened d dir (d.close_file path w) (d.open_file path w)

  -- `ParseAllFromFS` of internal/sqlparser/parse.go. The two directions are parsed concurrently; of
  -- two errors the first to come is returned, here that of the up direction.
  unfoldable pub parse_all_from_fs : Driver W → Str → W → Result ParsedSql
  unfolding parse both
  parse_all_from_fs d path w = both (parse d path direction_up w) (parse d path direction_down w)

  -- The mode of a Go migration in a direction, tested against `TransactionEnabled`.
  unfoldable pub go_use_tx : Migration W → Bool → Bool
  unfolding is_enabled
  go_use_tx m direction = if direction then is_enabled m.go_up.mode else is_enabled m.go_down.mode

module _ {W : Type 0} (p : Provider W) where
  unfoldable pub prepare_go : Migration W → Bool → Exec (State W) Done
  prepare_go m direction s =
      if is_mode_unset m.go_up.mode
      then (err mode_not_set, s)
      else if is_mode_unset m.go_down.mode
      then (err mode_not_set, s)
      else if p.cfg.lock_enabled
          && is_some p.cfg.session_locker
          && p.driver.max_open_connections s.world == 1
          && not (go_use_tx m direction)
      then (err deadlock_detected, s)
      else (ok tt, s)

  -- The parsed file is kept for later runs.
  unfoldable pub remember : Migration W → Result ParsedSql → Exec (State W) Done
  remember m (err e) s = (err e, s)
  remember m (ok parsed) s = (ok tt, record s { parsed = insert m.version parsed s.parsed })

  unfoldable pub prepare_sql : Migration W → Option ParsedSql → Exec (State W) Done
  unfolding remember
  prepare_sql m (some parsed) s = (ok tt, s)
  prepare_sql m none s = remember m (parse_all_from_fs p.driver m.source s.world) s

  unfoldable pub prepare_type : MigrationType → Migration W → Bool → Exec (State W) Done
  prepare_type type_go m direction = prepare_go m direction
  prepare_type type_sql m direction = λ s. prepare_sql m (lookup m.version s.parsed) s
  prepare_type (type_other t) m direction = fail invalid_type

  unfoldable pub prepare_migration : Migration W → Bool → Exec (State W) Done
  unfolding prepare_type prepare_sql prepare_go is_mode_unset go_use_tx
  prepare_migration m direction = prepare_type m.type m direction

  sql_use_tx : Option ParsedSql → Result Bool
  sql_use_tx none = err not_parsed
  sql_use_tx (some parsed) = ok parsed.use_tx

  use_tx_type : MigrationType → Migration W → Bool → State W → Result Bool
  use_tx_type type_go m direction s =
      if is_mode_unset m.go_up.mode || is_mode_unset m.go_down.mode
      then err mode_not_set
      else ok (go_use_tx m direction)
  use_tx_type type_sql m direction s = sql_use_tx (lookup m.version s.parsed)
  use_tx_type (type_other t) m direction s = err invalid_type

  unfoldable pub use_tx : Migration W → Bool → State W → Result Bool
  unfolding use_tx_type sql_use_tx is_mode_unset go_use_tx
  use_tx m direction s = use_tx_type m.type m direction s

  -- The statements of a parsed file in a direction.
  statements : Bool → ParsedSql → List Str
  statements direction parsed = if direction then parsed.up else parsed.down

  is_empty_type : MigrationType → Migration W → Bool → State W → Bool
  is_empty_type type_go m direction s =
      if direction
      then not (is_some m.go_up.run_tx) && not (is_some m.go_up.run_db)
      else not (is_some m.go_down.run_tx) && not (is_some m.go_down.run_db)
  is_empty_type type_sql m direction s = elim (lookup m.version s.parsed) [
    | none ↦ true
    | some parsed ↦ is_nil (statements direction parsed)
  ]
  is_empty_type (type_other t) m direction s = true

  unfoldable pub is_empty : Migration W → Bool → State W → Bool
  unfolding is_empty_type statements
  is_empty m direction s = is_empty_type m.type m direction s

  -- The loop of `runSQL`.
  unfoldable pub exec_all : Handle → List Str → Exec (State W) Done
  exec_all h [] = pure tt
  exec_all h (stmt ∷ stmts) = call (p.driver.exec h stmt) >> exec_all h stmts

  unfoldable pub run_parsed : Handle → Bool → Option ParsedSql → Exec (State W) Done
  unfolding exec_all statements
  run_parsed h direction none = fail not_parsed
  run_parsed h direction (some parsed) = exec_all h (statements direction parsed)

  unfoldable pub run_sql : Handle → Migration W → Bool → Exec (State W) Done
  unfolding run_parsed
  run_sql h m direction s = run_parsed h direction (lookup m.version s.parsed) s

  -- A panic of a migration function is recovered as an error.
  unfoldable pub recovered : GoOutcome → Result Done
  recovered (returned e) = settle e
  recovered panics = err panicked

  unfoldable pub run_go_action : Option (GoAction W) → Exec (State W) Done
  unfolding recovered
  run_go_action none s = (ok tt, s)
  run_go_action (some f) s = (recovered (f s.world).0, record s { world = (f s.world).1 })

  unfoldable pub run_go : Handle → Migration W → Bool → Exec (State W) Done
  unfolding run_go_action
  run_go conn m direction = fail conn_not_supported
  run_go db m direction = run_go_action (if direction then m.go_up.run_db else m.go_down.run_db)
  run_go tx m direction = run_go_action (if direction then m.go_up.run_tx else m.go_down.run_tx)

  unfoldable pub run_type : MigrationType → Handle → Migration W → Bool → Exec (State W) Done
  run_type type_go h m direction = run_go h m direction
  run_type type_sql h m direction = run_sql h m direction
  run_type (type_other t) h m direction = fail invalid_type

  unfoldable pub run_migration : Handle → Migration W → Bool → Exec (State W) Done
  unfolding run_type
  run_migration h m direction = run_type m.type h m direction

  unfoldable pub maybe_insert_or_delete : Handle → ℤ → Bool → Exec (State W) Done
  maybe_insert_or_delete h version direction =
      if p.cfg.disable_versioning
      then pure tt
      else if direction
      then call (p.store.insert h version)
      else call (p.store.delete h version)

  -- The deferred function of `beginTx`.
  unfoldable pub roll_back : Error → Exec (State W) Done
  roll_back e s =
      let (e', w) = p.driver.rollback s.world in
      (settle (p.driver.append_errors (some e) e'), record s { world = w })

  unfoldable pub or_roll_back : Result Done → Exec (State W) Done
  unfolding roll_back
  or_roll_back (ok _) s = (ok tt, s)
  or_roll_back (err e) s = roll_back e s

  unfoldable pub commit_tx : Result Done → Exec (State W) Done
  commit_tx (ok _) s = call p.driver.commit s
  commit_tx (err e) s = (err e, s)

  unfoldable pub in_tx : Exec (State W) Done → Exec (State W) Done
  unfolding commit_tx or_roll_back
  in_tx fn s = let (r, s1) = fn s in let (r', s2) = commit_tx r s1 in or_roll_back r' s2

  unfoldable pub begin_tx : Exec (State W) Done → Exec (State W) Done
  unfolding in_tx
  begin_tx fn = call p.driver.begin >> in_tx fn

  -- The migration and its row in the version table.
  unfoldable pub run_and_record : Handle → Migration W → Bool → Exec (State W) Done
  run_and_record h m direction =
      run_migration h m direction >> maybe_insert_or_delete h m.version direction

  unfoldable pub without_tx : MigrationType → Migration W → Bool → Exec (State W) Done
  without_tx type_go m direction = run_and_record db m direction
  without_tx type_sql m direction = run_and_record conn m direction
  without_tx (type_other t) m direction = fail invalid_type

  unfoldable pub choose_tx : Migration W → Bool → Bool → Exec (State W) Done
  unfolding without_tx
  choose_tx m direction wanted =
      if wanted && not p.cfg.isolate_ddl
      then begin_tx (run_and_record tx m direction)
      else without_tx m.type m direction

  unfoldable pub run_individually : Migration W → Bool → Exec (State W) Done
  unfolding choose_tx
  run_individually m direction s = (lift (use_tx m direction s) >>= choose_tx m direction) s
