-- ===== src/Provider/Batches.antt =====
-- `runMigrations` of provider_run.go: what runs, with which results, and where an error stops it.
use pressly_goose_patches.Base.{
  ◌≡◌, refl, List, [], ◌∷◌, ◌++◌, inl, inr, arith, append_assoc, append-nil,
}
use pressly_goose_patches.SqlParser.{Direction, to_bool}
use pressly_goose_patches.Outcome.{Error, partial, ok, err, Exec-cases, MigrationResult}
use pressly_goose_patches.Provider.{Migration, Provider, State}
use pressly_goose_patches.Provider.Run.{run_individually}
use pressly_goose_patches.Provider.Batch.{run_all, run_one, reported, result_of}

module _ {W : Type 0} (p : Provider W) (d : Direction) where
  -- The migrations have run one after the other in this order, each with success in the direction,
  -- and the results are theirs.
  abbrev pub Completed : List (Migration W) → State W → State W → List MigrationResult → Type 0
  Completed [] s t rs = (s ≡ t) × (rs ≡ [])
  Completed (m ∷ ms) s t rs =
      (u : State W) × (later : List MigrationResult) × (run_individually p m (to_bool d) s
        ≡ (ok tt, u))
      × (rs ≡ result_of p m d s ∷ later)
      × Completed ms u t later

  -- The run stops at `failed`: those before it have run, with the results `results`, and none after
  -- it. The error lists these results after those of `before`.
  pub record StopsAt (before : List MigrationResult) (ms : List (Migration W)) (s t : State W)
      (e : Error) : Type 0 where
    pub applied : List (Migration W)
    pub failed : Migration W
    pub rest : List (Migration W)
    pub results : List MigrationResult
    pub at : State W
    pub cause : Error
    pub split : ms ≡ applied ++ failed ∷ rest
    pub ran : Completed applied s at results
    pub failed_there : run_individually p failed (to_bool d) at ≡ (err cause, t)
    pub reported_error : e ≡ partial (before ++ results) (result_of p failed d at) cause

  -- A batch that fails has run its migrations in order up to one that failed, and none after it: the
  -- error is a `PartialError` with the results of those that ran, in order and after the results
  -- given, the failed one and its cause.
  pub run_all-StopsAt :
      (before : List MigrationResult) (ms : List (Migration W)) (s t : State W) (e : Error)
      → run_all p d before ms s ≡ (err e, t)
      → StopsAt before ms s t e
  unfolding run_all run_one reported
  run_all-StopsAt before [] s t e h = ground arith
  run_all-StopsAt before (m ∷ ms) s t e h = elim (Exec-cases (run_individually p m (to_bool d) s)) [
    | inl (a, u, eq) ↦
        let r = result_of p m d s in
        let later = run_all-StopsAt (before ++ r ∷ []) ms u t e (ground arith) in
        record {
          applied = m ∷ later.applied;
          failed = later.failed;
          rest = later.rest;
          results = r ∷ later.results;
          at = later.at;
          cause = later.cause;
          split = cc later.split;
          ran = (u, later.results, eq, refl, later.ran);
          failed_there = later.failed_there;
          reported_error = cc (later.reported_error, append_assoc before (r ∷ []) later.results);
        }
    | inr (x, u, eq) ↦ record {
      applied = [];
      failed = m;
      rest = ms;
      results = [];
      at = s;
      cause = x;
      split = refl;
      ran = (refl, refl);
      failed_there = ground arith;
      reported_error = ground (arith, append-nil before);
    }
  ]

  pub run_all-Completed :
      (before : List MigrationResult) (ms : List (Migration W)) (s t : State W)
      (rs : List MigrationResult)
      → run_all p d before ms s ≡ (ok rs, t)
      → (own : List MigrationResult) × (rs ≡ before ++ own) × Completed ms s t own
  unfolding run_all run_one reported
  run_all-Completed before [] s t rs h =
      ([], ground (arith, append-nil before), (ground arith, refl))
  run_all-Completed before (m ∷ ms) s t rs h =
      elim (Exec-cases (run_individually p m (to_bool d) s)) [
        | inl (a, u, eq) ↦
            let r = result_of p m d s in
            let (own, e, c) = run_all-Completed (before ++ r ∷ []) ms u t rs (ground arith) in
            (r ∷ own, cc (e, append_assoc before (r ∷ []) own), (u, own, eq, refl, c))
        | inr (x, u, eq) ↦ ground arith
      ]
