-- ===== src/Provider/Atomic.antt =====
-- `runIndividually` of provider_run.go over a database with transactions.
use pressly_goose_patches.Base.{
  ◌≡◌, ◌≢◌, ◌⊎◌, Option-cases, refl, sym, Bool, true, false, List, [], ◌∷◌, Option, none, some, inl,
  inr, arith,
}
use pressly_goose_patches.Text.{Str}
use pressly_goose_patches.Int.{ℤ}
use pressly_goose_patches.VersionMap.{lookup}
use pressly_goose_patches.Outcome.{
  type_go, type_sql, type_other, Error, Result, ok, err, Exec, Keeps, Keeps-bind, MigrationType,
  ◌>>=◌,
}
use pressly_goose_patches.Provider.{tx, GoAction, Migration, ParsedSql, Provider, State}
use pressly_goose_patches.Provider.Run.{
  Done, call, use_tx, exec_all, run_parsed, run_sql, run_go, run_go_action, run_type, run_migration,
  maybe_insert_or_delete, roll_back, or_roll_back, commit_tx, in_tx, begin_tx, run_and_record,
  choose_tx, run_individually,
}

-- What `database/sql` promises of a transaction: `view` is what a reader of the connection sees,
-- and `base` is what it sees again once the open transaction is rolled back.
pub record Transactional {W V : Type 0} (p : Provider W) (view base : W → V) : Type 0 where
  pub begin_opens : (w : W) → (p.driver.begin w).0 ≡ none → base (p.driver.begin w).1 ≡ view w
  pub begin_fails :
      (w : W) (e : Error) → (p.driver.begin w).0 ≡ some e → view (p.driver.begin w).1 ≡ view w
  pub exec_base : (stmt : Str) (w : W) → base (p.driver.exec tx stmt w).1 ≡ base w
  pub insert_base : (v : ℤ) (w : W) → base (p.store.insert tx v w).1 ≡ base w
  pub delete_base : (v : ℤ) (w : W) → base (p.store.delete tx v w).1 ≡ base w
  pub commit_fails :
      (w : W) (e : Error) → (p.driver.commit w).0 ≡ some e → base (p.driver.commit w).1 ≡ base w
  pub rollback_base : (w : W) → view (p.driver.rollback w).1 ≡ base w

-- A Go function that works inside its transaction.
abbrev pub StaysInTx : {W V : Type 0} → (W → V) → Option (GoAction W) → Type 0
StaysInTx base none = Unit
StaysInTx base (some f) = (w : _) → base (f w).1 ≡ base w

module _ {W V : Type 0} (p : Provider W) (view base : W → V) (law : Transactional p view base) where
  abbrev SameBase : State W → State W → Type 0
  SameBase s t = base s.world ≡ base t.world

  abbrev InTx : {A : Type 0} → Exec (State W) A → Type 0
  InTx m = Keeps SameBase m

  then-InTx :
      {A B : Type 0} (m : Exec (State W) A) (f : A → Exec (State W) B)
      → InTx m
      → ((a : A) → InTx (f a))
      → InTx (m >>= f)
  then-InTx m f h k = Keeps-bind SameBase (λ s. refl) (λ s t u e e'. cc) m f h k

  exec_all-InTx : (stmts : List Str) → InTx (exec_all p tx stmts)
  unfolding exec_all
  exec_all-InTx [] = record { at = λ s. refl }
  exec_all-InTx (stmt ∷ stmts) =
      then-InTx (call (p.driver.exec tx stmt)) (λ _. exec_all p tx stmts)
        (record { at = λ s. sym (law.exec_base stmt s.world) }) (λ _. exec_all-InTx stmts)

  run_parsed-InTx : (b : Bool) (r : Option ParsedSql) → InTx (run_parsed p tx b r)
  unfolding run_parsed
  run_parsed-InTx b none = record { at = λ s. refl }
  run_parsed-InTx b (some r) = exec_all-InTx _

  run_go_action-InTx : (f : Option (GoAction W)) → StaysInTx base f → InTx (run_go_action p f)
  unfolding run_go_action
  run_go_action-InTx none h = record { at = λ s. refl }
  run_go_action-InTx (some f) h = record { at = λ s. sym (h s.world) }

  module _ (m : Migration W) (up : StaysInTx base m.go_up.run_tx)
      (down : StaysInTx base m.go_down.run_tx) where
    run_go-InTx : (b : Bool) → InTx (run_go p tx m b)
    unfolding run_go
    run_go-InTx true = run_go_action-InTx m.go_up.run_tx up
    run_go-InTx false = run_go_action-InTx m.go_down.run_tx down

    run_type-InTx : (t : MigrationType) (b : Bool) → InTx (run_type p t tx m b)
    unfolding run_type run_sql
    run_type-InTx type_go b = run_go-InTx b
    run_type-InTx type_sql b = record {
      at = λ s. (run_parsed-InTx b (lookup m.version s.parsed)).at s;
    }
    run_type-InTx (type_other t) b = record { at = λ s. refl }

    record-InTx : (b : Bool) → InTx (maybe_insert_or_delete p tx m.version b)
    unfolding maybe_insert_or_delete
    record-InTx b = record {
      at =
          λ s. ground (arith, law.insert_base m.version s.world, law.delete_base m.version s.world);
    }

    run_and_record-InTx : (b : Bool) → InTx (run_and_record p tx m b)
    unfolding run_and_record run_migration
    run_and_record-InTx b =
        then-InTx (run_migration p tx m b) (λ _. maybe_insert_or_delete p tx m.version b)
          (run_type-InTx m.type b) (λ _. record-InTx b)

    rolled_back :
        (r : Result Done) (u t : State W) (e : Error)
        → or_roll_back p r u ≡ (err e, t)
        → (r ≢ ok tt) × (view t.world ≡ base u.world)
    unfolding or_roll_back roll_back
    rolled_back (ok _) u t e h = cc
    rolled_back (err e') u t e h = (cc, ground (arith, law.rollback_base u.world))

    commit_base :
        (r : Result Done) (u : State W)
        → ((commit_tx p r u).0 ≡ ok tt) ⊎ (base (commit_tx p r u).1.world ≡ base u.world)
    unfolding commit_tx
    commit_base (err e) u = inr refl
    commit_base (ok _) u = elim (Option-cases (p.driver.commit u.world).0) [
      | inl none_eq ↦ inl (rw none_eq refl)
      | inr (e, some_eq) ↦ inr (law.commit_fails u.world e some_eq)
    ]

    failed_in_tx :
        (fn : Exec (State W) Done) (s t : State W) (e : Error)
        → InTx fn
        → in_tx p fn s ≡ (err e, t)
        → view t.world ≡ base s.world
    unfolding in_tx
    failed_in_tx fn s t e k h =
        let (r, u) = fn s in
        ground (
          arith,
          k.at s,
          commit_base (fn s).0 (fn s).1,
          rolled_back (commit_tx p (fn s).0 (fn s).1).0 (commit_tx p (fn s).0 (fn s).1).1 t e h,
        )

    failed_begin_tx :
        (fn : Exec (State W) Done) (s t : State W) (e : Error)
        → InTx fn
        → begin_tx p fn s ≡ (err e, t)
        → view t.world ≡ view s.world
    unfolding begin_tx
    failed_begin_tx fn s t e k h = elim (Option-cases (p.driver.begin s.world).0) [
      | inl none_eq ↦
          let opened = record s { world = (p.driver.begin s.world).1 } in
          ground (arith, law.begin_opens s.world none_eq, failed_in_tx fn opened t e k)
      | inr (e', some_eq) ↦ ground (arith, law.begin_fails s.world e' some_eq)
    ]

    -- A migration that is run in a transaction and fails (in a statement, in a Go function, by a
    -- panic, at its row in the version table, at the begin or at the commit) leaves what a reader
    -- sees as it was, where the rollback restores what was seen when the transaction began, the Go
    -- functions stay inside their transaction, and DDL is not isolated.
    pub failed_migration_undone :
        (b : Bool) (s t : State W) (e : Error)
        → use_tx p m b s ≡ ok true
        → p.cfg.isolate_ddl ≡ false
        → run_individually p m b s ≡ (err e, t)
        → view t.world ≡ view s.world
    unfolding run_individually choose_tx
    failed_migration_undone b s t e u i h =
        ground (arith, failed_begin_tx (run_and_record p tx m b) s t e (run_and_record-InTx b))
