-- ===== src/Provider/Downward.antt =====
-- `down` of provider.go: the rows that it takes from the version table.
use pressly_goose_patches.Base.{
  ◌≡◌, refl, Bool-cases, Bool, true, false, List, [], ◌∷◌, inl, inr, arith, if◌then◌else◌, map,
  is_nil, All, subst, sym, ◌∙◌, All-Mem,
}
use mathlib.Core.List.{Mem}
use pressly_goose_patches.Int.{ℤ, pos, eqb_ℤ, leb_ℤ, eqb_ℤ_iff, le→leb_ℤ, ◌≤ℤ◌}
use pressly_goose_patches.SqlParser.{direction_down, to_bool}
use pressly_goose_patches.Outcome.{ok, >>=-eq-ok, lift, failed_to_initialize, MigrationResult}
use pressly_goose_patches.Provider.{conn, Migration, ListResult, Provider, State}
use pressly_goose_patches.Provider.Run.{on_world}
use pressly_goose_patches.Provider.Batch.{run_migrations, chosen}
use pressly_goose_patches.Provider.Methods.{
  get_migrations, rows_above, down_rows, down_body, down_internal,
}
use pressly_goose_patches.Provider.Ledger.{Ledger, IsTame}
use pressly_goose_patches.Provider.Log.{
  recorded, run_migrations-Turns, HasRun, run_migrations-HasRun,
}
use pressly_goose_patches.Provider.Quiet.{with_session-eq-ok}
use pressly_goose_patches.Provider.Upward.{get_migrations-ok, listed}

-- The newest versions, up to the first that is not above the given one.
unfoldable pub above : ℤ → List ℤ → List ℤ
above version [] = []
above version (v ∷ vs) = let rest = above version vs in if leb_ℤ v version then [] else v ∷ rest

module _ {W : Type 0} (p : Provider W) (versions : W → List ℤ) (law : Ledger p versions)
    (on : p.cfg.disable_versioning ≡ false) (tame : All (IsTame versions) p.migrations) where
  rows_above-eq-above :
      (version : ℤ) (rows : List ListResult)
      → rows_above p version rows ≡ above version (map (λ r. r.version) rows)
  unfolding rows_above above
  rows_above-eq-above version [] = refl
  rows_above-eq-above version (row ∷ rows) = ground (arith, rows_above-eq-above version rows)

  -- The migrations `apply` are the provider's for the newest rows above the version, the chosen ones have run down in
  -- this order with the results `rs`, and the table has lost their versions.
  abbrev pub IsRolledBack :
      Bool → ℤ → State W → State W → List MigrationResult → List (Migration W) → Type 0
  IsRolledBack by_one version s t rs apply =
      All (λ m. Mem m p.migrations) apply
      × (map (λ m. m.version) apply ≡ above version (versions s.world))
      × (versions t.world ≡ recorded false (chosen p by_one apply) (versions s.world))
      × HasRun p versions law on direction_down (chosen p by_one apply) s t rs

  nothing_run :
      (by_one : Bool) (s t : State W) (rs : List MigrationResult)
      → s ≡ t
      → rs ≡ []
      → HasRun p versions law on direction_down (chosen p by_one []) s t rs
  unfolding chosen
  nothing_run by_one s t rs same e = (s, t, refl, refl, (same, e))

  -- Only the rows before and after matter.
  moved :
      (by_one : Bool) (version : ℤ) (s s' t t' : State W) (rs : List MigrationResult)
      → versions s.world ≡ versions s'.world
      → versions t.world ≡ versions t'.world
      → (apply : List (Migration W)) × IsRolledBack by_one version s t rs apply
      → (apply : List (Migration W)) × IsRolledBack by_one version s' t' rs apply
  moved by_one version s s' t t' rs h k (apply, (of, a, b, (u, v, c, d, r))) =
      (apply, (of, cc (a, h), cc (b, h, k), (u, v, c ∙ h, d ∙ k, r)))

  zero_first :
      (version : ℤ) (row : ListResult) (vs : List ℤ)
      → pos 0 ≤ℤ version
      → eqb_ℤ row.version (pos 0) ≡ true
      → above version (row.version ∷ vs) ≡ []
  unfolding above
  zero_first version row vs h e =
      ground (arith, eqb_ℤ_iff row.version (pos 0), le→leb_ℤ row.version version)

  down_run :
      (by_one : Bool) (version : ℤ) (rows : List ListResult) (s t u : State W)
      → (rs : List MigrationResult) (apply : List (Migration W))
      → lift (get_migrations p (rows_above p version rows)) s ≡ (ok apply, u)
      → run_migrations p apply direction_down by_one u ≡ (ok rs, t)
      → map (λ r. r.version) rows ≡ versions s.world
      → IsRolledBack by_one version s t rs apply
  unfolding to_bool
  down_run by_one version rows s t u rs apply e e' read =
      let (eq, good) =
        get_migrations-ok p (IsTame versions) (rows_above p version rows) tame (ground arith) in
      let own =
        get_migrations-ok p (λ m. Mem m p.migrations) (rows_above p version rows)
          (All-Mem p.migrations) (ground arith) in
      let ran = run_migrations-Turns p versions law on apply direction_down by_one good u t rs e' in
      let same : s ≡ u = ground arith in
      let done_by = run_migrations-HasRun p versions law on apply direction_down by_one u t rs e' in
      let has_run =
        subst (λ s. HasRun p versions law on direction_down (chosen p by_one apply) s t rs)
          (sym same) done_by in
      (own.1, cc (eq, rows_above-eq-above version rows, read), cc (ran, same), has_run)

  down_rows-log :
      (by_one : Bool) (version : ℤ) (rows : List ListResult) (s t : State W)
      (rs : List MigrationResult)
      → pos 0 ≤ℤ version
      → down_rows p by_one version rows s ≡ (ok rs, t)
      → map (λ r. r.version) rows ≡ versions s.world
      → (apply : List (Migration W)) × IsRolledBack by_one version s t rs apply
  unfolding down_rows recorded chosen
  down_rows-log by_one version [] s t rs h e read = ground arith
  down_rows-log by_one version (row ∷ rows) s t rs h e read =
      elim (Bool-cases (eqb_ℤ row.version (pos 0))) [
        | inl zero_row ↦
            let none_above = zero_first version row (map (λ r. r.version) rows) h zero_row in
            let same : s ≡ t = ground arith in
            (
              [],
              (tt, cc (none_above, read), cc same, nothing_run by_one s t rs same (ground arith)),
            )
        | inr above_zero ↦
            let (apply, u, e1, e2) =
              >>=-eq-ok (lift (get_migrations p (rows_above p version (row ∷ rows))))
                (λ apply. run_migrations p apply direction_down by_one) s {b = rs} {t = t}
                (ground arith) in
            (apply, down_run by_one version (row ∷ rows) s t u rs apply e1 e2 read)
      ]

  down_body-log :
      (by_one : Bool) (version : ℤ) (s t : State W) (rs : List MigrationResult)
      → is_nil p.migrations ≡ false
      → pos 0 ≤ℤ version
      → down_body p by_one version s ≡ (ok rs, t)
      → (apply : List (Migration W)) × IsRolledBack by_one version s t rs apply
  unfolding down_body
  down_body-log by_one version s t rs files h e =
      let (rows, u, e1, e2) =
        >>=-eq-ok (on_world (p.store.list_migrations conn)) (down_rows p by_one version) s {b = rs}
          {t = t} (ground arith) in
      let (read, kept) = listed p versions law on tame s u rows e1 in
      moved by_one version u s t t rs kept refl
        (down_rows-log by_one version rows u t rs h e2 (cc (read, kept)))

  -- A successful `down` to a version runs the down direction of the provider's migrations of exactly
  -- the newest rows above it, each with success and the newest first, returns their results in this order, and
  -- takes their versions from the table; of these only the newest one if called for one step. This is
  -- for a provider with migrations, a version that is not negative, versioning enabled, an existing
  -- version table that drivers, lockers and migrations leave to the store, and a store that lists
  -- the newest row first and deletes the rows it is told to.
  pub down_internal-log :
      (by_one : Bool) (version : ℤ) (s t : State W) (rs : List MigrationResult)
      → is_nil p.migrations ≡ false
      → pos 0 ≤ℤ version
      → down_internal p by_one version s ≡ (ok rs, t)
      → (apply : List (Migration W)) × IsRolledBack by_one version s t rs apply
  unfolding down_internal
  down_internal-log by_one version s t rs files h e =
      let (u, v, e', before, after_body) =
        with_session-eq-ok p versions law true failed_to_initialize (down_body p by_one version) s t
          rs e in
      moved by_one version u s v t rs before (sym after_body)
        (down_body-log by_one version u v rs files h e')
