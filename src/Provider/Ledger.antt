-- ===== src/Provider/Ledger.antt =====
-- The version table as the provider sees it: what a driver, a store and the migrations promise, and
-- how one migration of provider_run.go changes the table.
use pressly_goose_patches.Base.{
  ◌≡◌, ◌≢◌, Option-cases, refl, Bool-cases, not, ◌&&◌, Bool, true, false, List, [], ◌∷◌, Option,
  none, some, inl, inr, arith, if◌then◌else◌, map, ℕ,
}
use pressly_goose_patches.Text.{Str}
use pressly_goose_patches.Int.{ℤ, eqb_ℤ}
use pressly_goose_patches.VersionMap.{lookup}
use pressly_goose_patches.Outcome.{
  type_go, type_sql, type_other, Error, Result, ok, err, Exec, >>=-eq-ok, MigrationType, ◌>>=◌,
  lift,
}
use pressly_goose_patches.Provider.{
  conn, db, tx, Call, GoAction, Handle, Migration, ParsedSql, Provider, State, Locker, Attempt,
  done, ListResult,
}
use pressly_goose_patches.Provider.Run.{
  Done, call, use_tx, exec_all, run_parsed, run_sql, run_go, run_go_action, run_type, run_migration,
  maybe_insert_or_delete, roll_back, or_roll_back, commit_tx, in_tx, begin_tx, run_and_record,
  choose_tx, run_individually, without_tx,
}

unfoldable pub remove : ℤ → List ℤ → List ℤ
remove v [] = []
remove v (w ∷ ws) = let rest = remove v ws in if eqb_ℤ w v then rest else w ∷ rest

-- The table after a migration: its version is the newest row, or has no row.
unfoldable pub after : Bool → ℤ → List ℤ → List ℤ
unfolding remove
after direction v vs = if direction then v ∷ vs else remove v vs

-- A locker that leaves the version table alone.
abbrev pub LockerKeeps : {W : Type 0} → (W → List ℤ) → Option (Locker W) → Type 0
LockerKeeps versions none = Unit
LockerKeeps versions (some l) =
    (w : _) → (versions (l.lock w).1 ≡ versions w) × (versions (l.unlock w).1 ≡ versions w)

-- `versions` are the rows of the version table, the newest first, as the connection reads them. The
-- statements of a migration leave the table alone, and the table exists.
pub record Ledger {W : Type 0} (p : Provider W) (versions : W → List ℤ) : Type 0 where
  pub begin_keeps : (w : W) → versions (p.driver.begin w).1 ≡ versions w
  pub commit_keeps :
      (w : W) → (p.driver.commit w).0 ≡ none → versions (p.driver.commit w).1 ≡ versions w
  pub exec_keeps :
      (h : Handle) (stmt : Str) (w : W)
      → (p.driver.exec h stmt w).0 ≡ none
      → versions (p.driver.exec h stmt w).1 ≡ versions w
  pub insert_adds :
      (h : Handle) (v : ℤ) (w : W)
      → (p.store.insert h v w).0 ≡ none
      → versions (p.store.insert h v w).1 ≡ v ∷ versions w
  pub delete_removes :
      (h : Handle) (v : ℤ) (w : W)
      → (p.store.delete h v w).0 ≡ none
      → versions (p.store.delete h v w).1 ≡ remove v (versions w)
  pub list_reads :
      (w w' : W) (rows : List ListResult)
      → p.store.list_migrations conn w ≡ (ok rows, w')
      → (map (λ r. r.version) rows ≡ versions w) × (versions w' ≡ versions w)
  pub latest_keeps : (w : W) → versions (p.store.get_latest_version conn w).1 ≡ versions w
  pub open_keeps : (w : W) → versions (p.driver.open_conn w).1 ≡ versions w
  pub close_keeps : (w : W) → versions (p.driver.close_conn w).1 ≡ versions w
  pub session_locker_keeps : LockerKeeps versions p.cfg.session_locker
  pub locker_keeps : LockerKeeps versions p.cfg.locker
  pub table_exists_keeps :
      (w : W)
      → ((p.store.table_exists conn w).0 ≡ ok true)
        × (versions (p.store.table_exists conn w).1 ≡ versions w)
  pub retry_done :
      (n : ℕ) (f : State W → Attempt × State W) (s t : State W)
      → f s ≡ (done, t)
      → p.driver.retry_do n f s ≡ (ok tt, t)
  pub append_not_nil : (e : Error) (o : Option Error) → p.driver.append_errors (some e) o ≢ none

-- A Go function that leaves the version table alone.
abbrev pub KeepsVersions : {W : Type 0} → (W → List ℤ) → Option (GoAction W) → Type 0
KeepsVersions versions none = Unit
KeepsVersions versions (some f) = (w : _) → versions (f w).1 ≡ versions w

-- The Go functions of a migration leave the version table alone.
pub record IsTame {W : Type 0} (versions : W → List ℤ) (m : Migration W) : Type 0 where
  pub up_tx : KeepsVersions versions m.go_up.run_tx
  pub up_db : KeepsVersions versions m.go_up.run_db
  pub down_tx : KeepsVersions versions m.go_down.run_tx
  pub down_db : KeepsVersions versions m.go_down.run_db

module _ {W : Type 0} (p : Provider W) (versions : W → List ℤ) (law : Ledger p versions) where
  -- A success of the action changes the table by `f`.
  abbrev pub Turns : {A : Type 0} → (List ℤ → List ℤ) → Exec (State W) A → Type 0
  Turns f m = (s t : State W) (a : _) → m s ≡ (ok a, t) → versions t.world ≡ f (versions s.world)

  pub then-Turns :
      {A B : Type 0} (f g : List ℤ → List ℤ) (m : Exec (State W) A) (k : A → Exec (State W) B)
      → Turns f m
      → ((a : A) → Turns g (k a))
      → Turns (λ vs. g (f vs)) (m >>= k)
  then-Turns f g m k hm hk s t b h =
      let (a, u, e, e') = >>=-eq-ok m k s h in rw (hk a u t b e', hm s u a e) refl

  call-Turns :
      (f : List ℤ → List ℤ) (c : Call W)
      → ((w : W) → (c w).0 ≡ none → versions (c w).1 ≡ f (versions w))
      → Turns f (call c)
  call-Turns f c k s t a h = elim (Option-cases (c s.world).0) [
    | inl none_eq ↦ ground (arith, k s.world none_eq)
    | inr (e, some_eq) ↦ ground arith
  ]

  exec_all-Turns : (h : Handle) (stmts : List Str) → Turns (λ vs. vs) (exec_all p h stmts)
  unfolding exec_all
  exec_all-Turns h [] s t a e = ground arith
  exec_all-Turns h (stmt ∷ stmts) s t a e =
      then-Turns (λ vs. vs) (λ vs. vs) (call (p.driver.exec h stmt)) (λ _. exec_all p h stmts)
        (call-Turns (λ vs. vs) (p.driver.exec h stmt) (law.exec_keeps h stmt))
        (λ _. exec_all-Turns h stmts) s t a e

  run_parsed-Turns :
      (h : Handle) (b : Bool) (r : Option ParsedSql) → Turns (λ vs. vs) (run_parsed p h b r)
  unfolding run_parsed
  run_parsed-Turns h b none s t a e = cc
  run_parsed-Turns h b (some r) s t a e = exec_all-Turns h _ s t a e

  run_go_action-Turns :
      (f : Option (GoAction W)) → KeepsVersions versions f → Turns (λ vs. vs) (run_go_action p f)
  unfolding run_go_action
  run_go_action-Turns none k s t a h = ground arith
  run_go_action-Turns (some f) k s t a h = ground (arith, k s.world)

  rolled_back-not-ok :
      (r : Result Done) (u t : State W) (a : Done)
      → or_roll_back p r u ≡ (ok a, t)
      → (r ≡ ok tt) × (t ≡ u)
  unfolding or_roll_back roll_back
  rolled_back-not-ok (ok _) u t a h = ground arith
  rolled_back-not-ok (err e) u t a h =
      let (e', w) = p.driver.rollback u.world in
      elim (Option-cases (p.driver.append_errors (some e) (p.driver.rollback u.world).0)) [
        | inl none_eq ↦ absurd (law.append_not_nil e (p.driver.rollback u.world).0 none_eq)
        | inr (e'', some_eq) ↦ ground arith
      ]

  committed :
      (r : Result Done) (u : State W)
      → (commit_tx p r u).0 ≡ ok tt
      → (r ≡ ok tt) × (versions (commit_tx p r u).1.world ≡ versions u.world)
  unfolding commit_tx
  committed (err e) u h = cc
  committed (ok _) u h = elim (Option-cases (p.driver.commit u.world).0) [
    | inl none_eq ↦ (refl, law.commit_keeps u.world none_eq)
    | inr (e, some_eq) ↦ ground arith
  ]

  pub in_tx-Turns :
      (f : List ℤ → List ℤ) (fn : Exec (State W) Done) → Turns f fn → Turns f (in_tx p fn)
  unfolding in_tx
  in_tx-Turns f fn k s t a h =
      let (r_ok, t_eq) =
        rolled_back-not-ok (commit_tx p (fn s).0 (fn s).1).0 (commit_tx p (fn s).0 (fn s).1).1 t a
          h in
      let (fn_ok, same) = committed (fn s).0 (fn s).1 r_ok in ground (arith, k s (fn s).1 tt)

  begin_tx-Turns :
      (f : List ℤ → List ℤ) (fn : Exec (State W) Done) → Turns f fn → Turns f (begin_tx p fn)
  unfolding begin_tx
  begin_tx-Turns f fn k =
      then-Turns (λ vs. vs) f (call p.driver.begin) (λ _. in_tx p fn)
        (call-Turns (λ vs. vs) p.driver.begin (λ w _. law.begin_keeps w)) (λ _. in_tx-Turns f fn k)

  module _ (m : Migration W) (tame : IsTame versions m) where
    run_go-Turns : (h : Handle) (b : Bool) → Turns (λ vs. vs) (run_go p h m b)
    unfolding run_go
    run_go-Turns conn b s t a e = cc
    run_go-Turns db true s t a e = run_go_action-Turns m.go_up.run_db tame.up_db s t a e
    run_go-Turns db false s t a e = run_go_action-Turns m.go_down.run_db tame.down_db s t a e
    run_go-Turns tx true s t a e = run_go_action-Turns m.go_up.run_tx tame.up_tx s t a e
    run_go-Turns tx false s t a e = run_go_action-Turns m.go_down.run_tx tame.down_tx s t a e

    run_type-Turns :
        (ty : MigrationType) (h : Handle) (b : Bool) → Turns (λ vs. vs) (run_type p ty h m b)
    unfolding run_type run_sql
    run_type-Turns type_go h b s t a e = run_go-Turns h b s t a e
    run_type-Turns type_sql h b s t a e = run_parsed-Turns h b (lookup m.version s.parsed) s t a e
    run_type-Turns (type_other ty) h b s t a e = cc

    module _ (on : p.cfg.disable_versioning ≡ false) where
      record-Turns :
          (h : Handle) (b : Bool)
          → Turns (after b m.version) (maybe_insert_or_delete p h m.version b)
      unfolding maybe_insert_or_delete after
      record-Turns h true = rw on (
          call-Turns (λ vs. m.version ∷ vs) (p.store.insert h m.version)
            (law.insert_adds h m.version))
      record-Turns h false = rw on (
          call-Turns (remove m.version) (p.store.delete h m.version)
            (law.delete_removes h m.version))

      run_and_record-Turns :
          (h : Handle) (b : Bool) → Turns (after b m.version) (run_and_record p h m b)
      unfolding run_and_record run_migration
      run_and_record-Turns h b =
          then-Turns (λ vs. vs) (after b m.version) (run_migration p h m b)
            (λ _. maybe_insert_or_delete p h m.version b) (run_type-Turns m.type h b)
            (λ _. record-Turns h b)

      without_tx-Turns :
          (ty : MigrationType) (b : Bool) → Turns (after b m.version) (without_tx p ty m b)
      unfolding without_tx
      without_tx-Turns type_go b s t a e = run_and_record-Turns db b s t a e
      without_tx-Turns type_sql b s t a e = run_and_record-Turns conn b s t a e
      without_tx-Turns (type_other ty) b s t a e = cc

      choose_tx-Turns : (b wanted : Bool) → Turns (after b m.version) (choose_tx p m b wanted)
      unfolding choose_tx
      choose_tx-Turns b wanted = elim (Bool-cases (wanted && not p.cfg.isolate_ddl)) [
        | inl both ↦ rw both (
            begin_tx-Turns (after b m.version) (run_and_record p tx m b)
              (run_and_record-Turns tx b))
        | inr not_both ↦ rw not_both (without_tx-Turns m.type b)
      ]

      pub run_individually-Turns : (b : Bool) → Turns (after b m.version) (run_individually p m b)
      unfolding run_individually
      run_individually-Turns b s t a h =
          let (wanted, u, e, e') = >>=-eq-ok (lift (use_tx p m b s)) (choose_tx p m b) s h in
          ground (arith, choose_tx-Turns b wanted u t a e')
