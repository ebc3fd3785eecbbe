-- ===== src/Provider/Upward.antt =====
-- `up` of provider.go and what `HasPending` says after it.
use pressly_goose_patches.Base.{
  ◌≡◌, refl, subst, Bool-cases, not, ◌||◌, Bool, true, false, List, [], ◌∷◌, inl, inr, arith,
  if◌then◌else◌, map, is_nil, All,
}
use pressly_goose_patches.Int.{ℤ, eqb_ℤ, eqb_ℤ_iff}
use pressly_goose_patches.Sort.{sort_by}
use pressly_goose_patches.SqlParser.{direction_up, to_bool}
use pressly_goose_patches.Resolve
use pressly_goose_patches.Resolve.{up_versions, find_missing, find_new}
use pressly_goose_patches.Resolve.Settled.{settled_by}
use pressly_goose_patches.Resolve.Spec.{mem, IsPositive}
use pressly_goose_patches.Outcome.{
  ok, Result-cases, >>=-eq-ok, ◌>>=◌, pure, lift, failed_to_initialize, MigrationResult,
}
use pressly_goose_patches.Provider.{conn, Migration, ListResult, Provider, State}
use pressly_goose_patches.Provider.Run.{on_world}
use pressly_goose_patches.Provider.Batch.{get_migration, run_migrations, chosen}
use pressly_goose_patches.Provider.Methods.{
  max_int64, get_versions_from_migrations, get_versions_from_list_migrations, get_migrations,
  resolved, versions_to_apply, migrations_to_apply, up_body, up_internal, has_pending_body,
  has_pending, if_pending, up,
}
use pressly_goose_patches.Provider.Ledger.{Ledger, IsTame, after}
use pressly_goose_patches.Provider.Log.{recorded, run_migrations-Turns}
use pressly_goose_patches.Provider.Quiet.{with_session-eq-ok}

module _ {W : Type 0} (p : Provider W) where
  get_migration-ok :
      (P : Migration W → Type 0) (v : ℤ) (ms : List (Migration W)) {m : Migration W}
      → All P ms
      → get_migration p v ms ≡ ok m
      → (m.version ≡ v) × P m
  unfolding get_migration
  get_migration-ok P v [] k h = cc
  get_migration-ok P v (m' ∷ ms) k h = elim (Bool-cases (eqb_ℤ m'.version v)) [
    | inl found ↦ (ground (arith, eqb_ℤ_iff m'.version v), subst P (ground arith) k.0)
    | inr other ↦ get_migration-ok P v ms k.1 (ground arith)
  ]

  pub get_migrations-ok :
      (P : Migration W → Type 0) (vs : List ℤ) {ms : List (Migration W)}
      → All P p.migrations
      → get_migrations p vs ≡ ok ms
      → (map (λ m. m.version) ms ≡ vs) × All P ms
  unfolding get_migrations
  get_migrations-ok P [] {ms = ms} k h =
      let e : [] ≡ ms = ground arith in
      subst (λ ms. (map (λ m. m.version) ms ≡ []) × All P ms) e (refl, tt)
  get_migrations-ok P (v ∷ vs) {ms = all} k h =
      elim (Result-cases (get_migration p v p.migrations)) [
        | inl (m, e) ↦ elim (Result-cases (get_migrations p vs)) [
          | inl (ms, e') ↦
              let (here, good) = get_migration-ok P v p.migrations k e in
              let (rest, all_good) = get_migrations-ok P vs k e' in
              let eq : m ∷ ms ≡ all = ground arith in
              subst (λ ms. (map (λ m. m.version) ms ≡ v ∷ vs) × All P ms) eq
                (cc (here, rest), (good, all_good))
          | inr (x, e') ↦ ground arith
        ]
        | inr (x, e) ↦ ground arith
      ]

  -- The versions of the migrations that the provider was made with.
  abbrev pub files : List ℤ
  files = map (λ m. m.version) p.migrations

  versions_to_apply-ok :
      (version : ℤ) (rows : List ListResult) (vs : List ℤ)
      → versions_to_apply p version rows ≡ ok vs
      → up_versions files (map (λ r. r.version) rows) version p.cfg.allow_missing ≡ Resolve.ok vs
  unfolding versions_to_apply resolved get_versions_from_migrations
      get_versions_from_list_migrations
  versions_to_apply-ok version rows vs h = ground arith

  migrations_to_apply-ok :
      (version : ℤ) (rows : List ListResult) (s t : State W) (ms : List (Migration W))
      → migrations_to_apply p version rows s ≡ (ok ms, t)
      → (vs : List ℤ) × (t ≡ s)
        × (up_versions files (map (λ r. r.version) rows) version p.cfg.allow_missing
            ≡ Resolve.ok vs)
        × (get_migrations p vs ≡ ok ms)
  unfolding migrations_to_apply
  migrations_to_apply-ok version [] s t ms h = cc
  migrations_to_apply-ok version (row ∷ rows) s t ms h =
      let (vs, u, e, e') =
        >>=-eq-ok (lift (versions_to_apply p version (row ∷ rows)))
          (λ vs. lift (get_migrations p vs)) s h in
      (vs, ground arith, versions_to_apply-ok version (row ∷ rows) vs (ground arith), ground arith)

module _ {W : Type 0} (p : Provider W) (versions : W → List ℤ) (law : Ledger p versions)
    (on : p.cfg.disable_versioning ≡ false) (tame : All (IsTame versions) p.migrations) where
  pub listed :
      (s u : State W) (rows : List ListResult)
      → on_world (p.store.list_migrations conn) s ≡ (ok rows, u)
      → (map (λ r. r.version) rows ≡ versions s.world) × (versions u.world ≡ versions s.world)
  listed s u rows h = law.list_reads s.world u.world rows (ground arith)

  -- The table after the versions of `vs`, the first of them only for `by_one`.
  abbrev pub IsLogged : Bool → ℤ → List ℤ → List ℤ → List (Migration W) → Type 0
  IsLogged by_one version vs vs' apply =
      (up_versions (files p) vs version p.cfg.allow_missing
        ≡ Resolve.ok (map (λ m. m.version) apply))
      × (vs' ≡ recorded true (chosen p by_one apply) vs)

  run-IsLogged :
      (by_one : Bool) (version : ℤ) (rows : List ListResult) (s t u : State W)
      → (rs : List MigrationResult) (apply : List (Migration W))
      → migrations_to_apply p version rows s ≡ (ok apply, u)
      → run_migrations p apply direction_up by_one u ≡ (ok rs, t)
      → map (λ r. r.version) rows ≡ versions s.world
      → IsLogged by_one version (versions s.world) (versions t.world) apply
  unfolding to_bool
  run-IsLogged by_one version rows s t u rs apply e e' read =
      let (vs, same, resolved_eq, got) = migrations_to_apply-ok p version rows s u apply e in
      let (ms_eq, ms_tame) = get_migrations-ok p (IsTame versions) vs tame got in
      let ran =
        run_migrations-Turns p versions law on apply direction_up by_one ms_tame u t rs e' in
      (cc (read, resolved_eq, ms_eq), cc (ran, same))

  rows-log :
      (by_one : Bool) (version : ℤ) (rows : List ListResult) (s t : State W)
      (rs : List MigrationResult)
      → (migrations_to_apply p version rows >>= λ apply. run_migrations p apply direction_up by_one)
          s
        ≡ (ok rs, t)
      → map (λ r. r.version) rows ≡ versions s.world
      → (apply : List (Migration W)) × IsLogged by_one version
          (versions s.world)
          (versions t.world)
          apply
  rows-log by_one version rows s t rs h read =
      let (apply, u, e, e') =
        >>=-eq-ok (migrations_to_apply p version rows)
          (λ apply. run_migrations p apply direction_up by_one) s h in
      (apply, run-IsLogged by_one version rows s t u rs apply e e' read)

  nothing :
      (ms : List (Migration W))
      → is_nil ms ≡ true
      → (vs : List ℤ) (version : ℤ) (allow : Bool)
      → up_versions (map (λ m. m.version) ms) vs version allow ≡ Resolve.ok []
  unfolding up_versions find_missing find_new sort_by
  nothing [] h vs version allow = ground arith
  nothing (m ∷ ms) h vs version allow = cc

  up_body-log :
      (by_one : Bool) (version : ℤ) (s t : State W) (rs : List MigrationResult)
      → up_body p by_one version s ≡ (ok rs, t)
      → (apply : List (Migration W)) × IsLogged by_one version
          (versions s.world)
          (versions t.world)
          apply
  unfolding up_body recorded chosen
  up_body-log by_one version s t rs h = elim (Bool-cases (is_nil p.migrations)) [
    | inl empty ↦ (
      [],
      (nothing p.migrations empty (versions s.world) version p.cfg.allow_missing, ground arith),
    )
    | inr some_files ↦
        let (rows, u, e, e') =
          >>=-eq-ok (on_world (p.store.list_migrations conn))
            (λ rows. migrations_to_apply p version rows >>= λ apply.
              run_migrations p apply direction_up by_one)
            s {b = rs} {t = t} (ground arith) in
        let (read, kept) = listed s u rows e in
        rw (← kept) (rows-log by_one version rows u t rs e' (cc (read, kept)))
  ]

  -- A successful `up` adds to a version table exactly the versions that `UpVersions` names, the last of
  -- them as the newest row, and of these only the first if called for one step; the hypotheses are
  -- that versioning is enabled, that the version table exists, that drivers, lockers and migrations
  -- leave the table to the store, and that the store inserts the rows it is told to.
  pub up_internal-log :
      (by_one : Bool) (version : ℤ) (s t : State W) (rs : List MigrationResult)
      → up_internal p by_one version s ≡ (ok rs, t)
      → (apply : List (Migration W)) × IsLogged by_one version
          (versions s.world)
          (versions t.world)
          apply
  unfolding up_internal
  up_internal-log by_one version s t rs h =
      let (u, v, e, before, after_body) =
        with_session-eq-ok p versions law true failed_to_initialize (up_body p by_one version) s t
          rs (ground arith) in
      rw (← before, after_body) (up_body-log by_one version u v rs e)

  has_pending_body-ok :
      (s t : State W) (b : Bool)
      → has_pending_body p s ≡ (ok b, t)
      → (vs : List ℤ) × (up_versions (files p) (versions s.world) max_int64 p.cfg.allow_missing
          ≡ Resolve.ok vs)
        × (b ≡ not (is_nil vs))
        × (versions t.world ≡ versions s.world)
  unfolding has_pending_body
  has_pending_body-ok s t b h =
      let (rows, u, e, e') =
        >>=-eq-ok (on_world (p.store.list_migrations conn))
          (λ rows. lift (versions_to_apply p max_int64 rows) >>= λ vs. pure (not (is_nil vs))) s
          {b = b} {t = t} (ground arith) in
      let (vs, v, e2, e3) =
        >>=-eq-ok (lift (versions_to_apply p max_int64 rows)) (λ vs. pure (not (is_nil vs))) u e' in
      let (read, kept) = listed s u rows e in
      let resolved_eq = versions_to_apply-ok p max_int64 rows vs (ground arith) in
      (vs, cc (read, resolved_eq), ground arith, ground arith)

  has_pending-ok :
      (s t : State W) (b : Bool)
      → has_pending p s ≡ (ok b, t)
      → (vs : List ℤ) × (up_versions (files p) (versions s.world) max_int64 p.cfg.allow_missing
          ≡ Resolve.ok vs)
        × (b ≡ not (is_nil vs))
        × (versions t.world ≡ versions s.world)
  unfolding has_pending
  has_pending-ok s t b h =
      let (u, v, e, before, after_body) =
        with_session-eq-ok p versions law false failed_to_initialize (has_pending_body p) s t b h in
      let (vs, e', b_eq, same) = has_pending_body-ok u v b e in
      (vs, cc (e', before), b_eq, cc (before, after_body, same))

  mem-recorded :
      (v : ℤ) (ms : List (Migration W)) (vs : List ℤ)
      → mem v (recorded true ms vs) ≡ (mem v (map (λ m. m.version) ms) || mem v vs)
  unfolding mem recorded after
  mem-recorded v [] vs = refl
  mem-recorded v (m ∷ ms) vs = ground (arith, mem-recorded v ms (m.version ∷ vs))

  chosen-all : (ms : List (Migration W)) → chosen p false ms ≡ ms
  unfolding chosen
  chosen-all [] = refl
  chosen-all (m ∷ ms) = refl

  -- After `up` to the highest version there is nothing to apply.
  up_internal-settled :
      (s t : State W) (rs : List MigrationResult)
      → All IsPositive (files p)
      → up_internal p false max_int64 s ≡ (ok rs, t)
      → up_versions (files p) (versions t.world) max_int64 p.cfg.allow_missing ≡ Resolve.ok []
  up_internal-settled s t rs pos_files h =
      let (apply, (e, log)) = up_internal-log false max_int64 s t rs h in
      settled_by (files p) (versions s.world) (versions t.world) max_int64 p.cfg.allow_missing
        (map (λ m. m.version) apply) pos_files e
        (λ v. rw (log, chosen-all apply, mem-recorded v apply (versions s.world)) refl)
        p.cfg.allow_missing

  -- Where `Up` succeeds, a `HasPending` that succeeds next says that nothing is pending, for files
  -- of positive versions, versioning enabled, an existing version table that drivers, lockers and
  -- migrations leave to the store, and a store that inserts the rows it is told to.
  pub has_pending_after_up :
      (s t u : State W) (rs : List MigrationResult) (b : Bool)
      → All IsPositive (files p)
      → up p s ≡ (ok rs, t)
      → has_pending p t ≡ (ok b, u)
      → b ≡ false
  unfolding up if_pending
  has_pending_after_up s t u rs b pos_files h h' =
      let (before, s1, e, e') =
        >>=-eq-ok (has_pending p) (λ b. if b then up_internal p false max_int64 else pure []) s h in
      let (vs', later, b_eq, _) = has_pending-ok t u b h' in
      elim (Bool-cases before) [
        | inl pending_before ↦
            let none_left = up_internal-settled s1 t rs pos_files (ground arith) in
            ground (arith, none_left)
        | inr none_before ↦
            let (vs, first, before_eq, same) = has_pending-ok s s1 before e in
            let at_rest : s1 ≡ t = ground arith in
            let both : Resolve.ok vs' ≡ Resolve.ok vs = cc (later, first, same, at_rest) in
            ground (arith, both)
      ]
