-- ===== src/Provider/Log.antt =====
-- The version table under `runMigrations` and the methods of provider.go.
use pressly_goose_patches.Base.{
  ◌≡◌, refl, Bool-cases, ◌||◌, Bool, true, false, List, [], ◌∷◌, ◌++◌, Option, none, some, inl, inr,
  arith, All, ap, sym, subst, ◌∙◌,
}
use pressly_goose_patches.Int.{ℤ}
use pressly_goose_patches.SqlParser.{Direction, to_bool}
use pressly_goose_patches.Outcome.{
  MigrationType, type_go, type_sql, type_other, Result, ok, err, Exec, >>=-eq-ok, ◌>>=◌, ◌>>◌, pure,
  MigrationResult,
}
use pressly_goose_patches.Provider.{conn, Migration, ParsedSql, Provider, State}
use pressly_goose_patches.Provider.Run.{
  Done, prepare_migration, prepare_type, prepare_go, prepare_sql, remember, run_individually,
  on_world,
}
use pressly_goose_patches.Provider.Batch.{
  run_migrations, prepare_all, run_all, run_one, log_version, chosen, reported, max_version_on_conn,
  latest_version, result_of,
}
use pressly_goose_patches.Provider.Batches.{Completed, run_all-Completed}
use pressly_goose_patches.Provider.Ledger.{
  Ledger, IsTame, after, Turns, then-Turns, run_individually-Turns,
}

-- The table after a list of migrations in a direction.
unfoldable pub recorded : {W : Type 0} → Bool → List (Migration W) → List ℤ → List ℤ
recorded b [] vs = vs
recorded b (m ∷ ms) vs = recorded b ms (after b m.version vs)

module _ {W : Type 0} (p : Provider W) (versions : W → List ℤ) (law : Ledger p versions) where
  module _ (on : p.cfg.disable_versioning ≡ false) where
    reported-ok :
        (rs : List MigrationResult) (r : MigrationResult) (x : Result Done × State W)
        → {a : MigrationResult} {t : State W} → reported p rs r x ≡ (ok a, t)
        → x ≡ (ok tt, t)
    unfolding reported
    reported-ok rs r (ok _, s) h = ground arith
    reported-ok rs r (err e, s) h = cc

    run_one-Turns :
        (d : Direction) (rs : List MigrationResult) (m : Migration W)
        → IsTame versions m
        → Turns p versions law (after (to_bool d) m.version) (run_one p d rs m)
    unfolding run_one reported
    run_one-Turns d rs m tame s t a h =
        run_individually-Turns p versions law m tame on (to_bool d) s t tt
          (reported-ok rs (result_of p m d s) (run_individually p m (to_bool d) s) h)

    run_all-Turns :
        (d : Direction) (rs : List MigrationResult) (ms : List (Migration W))
        → All (IsTame versions) ms
        → Turns p versions law (recorded (to_bool d) ms) (run_all p d rs ms)
    unfolding run_all recorded
    run_all-Turns d rs [] tame s t a h = ground arith
    run_all-Turns d rs (m ∷ ms) tame s t a h =
        then-Turns p versions law (after (to_bool d) m.version) (recorded (to_bool d) ms)
          (run_one p d rs m) (λ r. run_all p d (rs ++ r ∷ []) ms) (run_one-Turns d rs m tame.0)
          (λ r. run_all-Turns d (rs ++ r ∷ []) ms tame.1) s t a h

    remember-world :
        (m : Migration W) (r : Result ParsedSql) (s : State W)
        → (remember p m r s).1.world ≡ s.world
    unfolding remember
    remember-world m (ok parsed) s = refl
    remember-world m (err e) s = refl

    prepare_sql-world :
        (m : Migration W) (o : Option ParsedSql) (s : State W)
        → (prepare_sql p m o s).1.world ≡ s.world
    unfolding prepare_sql
    prepare_sql-world m none s = remember-world m _ s
    prepare_sql-world m (some parsed) s = refl

    prepare_type-world :
        (ty : MigrationType) (m : Migration W) (b : Bool) (s : State W)
        → (prepare_type p ty m b s).1.world ≡ s.world
    unfolding prepare_type prepare_go prepare_sql
    prepare_type-world type_go m b s = ground arith
    prepare_type-world type_sql m b s = prepare_sql-world m _ s
    prepare_type-world (type_other ty) m b s = refl

    prepare_all-Turns :
        (d : Direction) (ms : List (Migration W))
        → Turns p versions law (λ vs. vs) (prepare_all p d ms)
    unfolding prepare_all prepare_migration
    prepare_all-Turns d [] s t a h = ground arith
    prepare_all-Turns d (m ∷ ms) s t a h =
        then-Turns p versions law (λ vs. vs) (λ vs. vs) (prepare_migration p m (to_bool d))
          (λ _. prepare_all p d ms)
          (λ s t a h. ground (arith, prepare_type-world m.type m (to_bool d) s))
          (λ _. prepare_all-Turns d ms) s t a h

    latest_version-state : (x : Result ℤ × State W) → (latest_version p x).1 ≡ x.1
    unfolding latest_version
    latest_version-state (ok v, s) = refl
    latest_version-state (err e, s) = ground arith

    log_version-Turns : (skip : Bool) → Turns p versions law (λ vs. vs) (log_version p skip)
    unfolding log_version max_version_on_conn latest_version
    log_version-Turns skip s t a h = elim (Bool-cases skip) [
      | inl skips ↦ ground arith
      | inr reads ↦
          let x = on_world (p.store.get_latest_version conn) s in
          let (v, u, e, e') =
            >>=-eq-ok (max_version_on_conn p) (λ _. pure tt) s {b = a} {t = t} (ground arith) in
          ground (arith, latest_version-state x, law.latest_keeps s.world)
    ]

    chosen-tame :
        (by_one : Bool) (ms : List (Migration W))
        → All (IsTame versions) ms
        → All (IsTame versions) (chosen p by_one ms)
    unfolding chosen
    chosen-tame by_one [] h = tt
    chosen-tame true (m ∷ ms) h = (h.0, tt)
    chosen-tame false (m ∷ ms) h = h

    -- The run of the chosen migrations, and what follows it.
    abbrev run_then_log :
        Direction → Bool → List (Migration W) → Exec (State W) (List MigrationResult)
    run_then_log d skip apply =
        run_all p d [] apply >>= λ results. log_version p skip >> pure results

    run_then_log-Turns :
        (d : Direction) (skip : Bool) (ms : List (Migration W))
        → All (IsTame versions) ms
        → Turns p versions law (recorded (to_bool d) ms) (run_then_log d skip ms)
    run_then_log-Turns d skip ms tame =
        then-Turns p versions law (recorded (to_bool d) ms) (λ vs. vs) (run_all p d [] ms)
          (λ results. log_version p skip >> pure results) (run_all-Turns d [] ms tame)
          (λ results.
            then-Turns p versions law (λ vs. vs) (λ vs. vs) (log_version p skip) (λ _. pure results)
              (log_version-Turns skip) (λ _ s t a h. ground arith))

    pub run_migrations-Turns :
        (ms : List (Migration W)) (d : Direction) (by_one : Bool)
        → All (IsTame versions) ms
        → Turns p versions law
            (recorded (to_bool d) (chosen p by_one ms))
            (run_migrations p ms d by_one)
    unfolding run_migrations chosen recorded
    run_migrations-Turns [] d by_one tame s t a h =
        then-Turns p versions law (λ vs. vs) (λ vs. vs) (log_version p p.cfg.disable_versioning)
          (λ _. pure []) (log_version-Turns p.cfg.disable_versioning) (λ _ s t a h. ground arith) s
          t a h
    run_migrations-Turns (m ∷ ms) d by_one tame s t a h =
        let apply = chosen p by_one (m ∷ ms) in
        then-Turns p versions law (λ vs. vs) (recorded (to_bool d) apply) (prepare_all p d apply)
          (λ _. run_then_log d (p.cfg.disable_versioning || by_one) apply)
          (prepare_all-Turns d apply)
          (λ _.
            run_then_log-Turns d (p.cfg.disable_versioning || by_one) apply
              (chosen-tame by_one (m ∷ ms) tame))
          s t a h

    -- What a batch has run, between states with the rows from before it and after it.
    abbrev pub HasRun :
        Direction → List (Migration W) → State W → State W → List MigrationResult → Type 0
    HasRun d ms s t rs =
        (u : State W) × (v : State W) × (versions u.world ≡ versions s.world)
        × (versions v.world ≡ versions t.world)
        × Completed p d ms u v rs

    pub run_migrations-HasRun :
        (ms : List (Migration W)) (d : Direction) (by_one : Bool) (s t : State W)
        (rs : List MigrationResult)
        → run_migrations p ms d by_one s ≡ (ok rs, t)
        → HasRun d (chosen p by_one ms) s t rs
    unfolding run_migrations chosen
    run_migrations-HasRun [] d by_one s t rs h =
        let (x, u, e, f) = >>=-eq-ok (log_version p p.cfg.disable_versioning) (λ _. pure []) s h in
        let same : u ≡ t = ground arith in
        let kept = log_version-Turns p.cfg.disable_versioning s u x e in
        (s, s, refl, sym kept ∙ ap (λ w. versions w.world) same, (refl, ground arith))
    run_migrations-HasRun (m ∷ ms) d by_one s t rs h =
        let apply = chosen p by_one (m ∷ ms) in
        let skip = p.cfg.disable_versioning || by_one in
        let (x, u, e, f) = >>=-eq-ok (prepare_all p d apply) (λ _. run_then_log d skip apply) s h in
        let (out, v, g, k) =
          >>=-eq-ok (run_all p d [] apply) (λ results. log_version p skip >> pure results) u f in
        let (y, w, l, n) = >>=-eq-ok (log_version p skip) (λ _. pure out) v k in
        let (own, o, c) = run_all-Completed p d [] apply u v out g in
        let same : w ≡ t = ground arith in
        let eq : own ≡ rs = ground arith in
        (
          u,
          v,
          prepare_all-Turns d apply s u x e,
          sym (log_version-Turns skip v w y l) ∙ ap (λ w. versions w.world) same,
          subst (Completed p d apply u v) eq c,
        )
