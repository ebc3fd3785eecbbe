-- ===== src/Legacy/Upward.antt =====
-- up.go: the rows that `UpToContext` leaves in the version table.
use pressly_goose_patches.Base.{
  ◌≡◌, refl, sym, subst, ap, ◌∙◌, Bool, true, false, List, [], ◌∷◌, if◌then◌else◌, arith, All, ◌⊎◌,
  not, ◌&&◌, ◌++◌, is_nil, Bool-cases, All-append, inl, inr, map,
}
use pressly_goose_patches.Int.{ℤ}
use pressly_goose_patches.Sort.{sort_by, All-sort_by}
use pressly_goose_patches.Outcome.{Result, ok, Exec, continue, lift, pure, ◌>>=◌, ◌>>◌, >>=-eq-ok}
use pressly_goose_patches.Provider.{db, Driver, Store, ListResult}
use pressly_goose_patches.Provider.Run.{Done}
use pressly_goose_patches.Legacy.{LegacyMigration}
use pressly_goose_patches.Legacy.Versions.{ensure_db_version, list_all_db_versions}
use pressly_goose_patches.Legacy.Commands.{
  Options, last_version, missing_of, new_of, applied_of, find_missing_migrations,
  migrations_to_apply, up_all, apply_or_read, up_versioned, up_one,
}
use pressly_goose_patches.Legacy.Selection.{All-missing, All-new}
use pressly_goose_patches.Legacy.Rollback.{LegacyLedger, IsTame, Leaves, run-Leaves}

-- A row for each migration, the last one first.
abbrev pub recorded : {W : Type 0} → List (LegacyMigration W) → List ListResult → List ListResult
recorded [] rs = rs
recorded (m ∷ ms) rs = recorded ms (record { version = m.version; is_applied = true } ∷ rs)

abbrev pub versions_of : List ListResult → List ℤ
versions_of rs = sort_by (λ v. v) (map (λ r. r.version) rs)

if-All :
    {A : Type 0} (P : A → Type 0) (b : Bool) (xs : List A) → All P xs → All P (if b then xs else [])
if-All P true xs a = a
if-All P false xs a = tt

-- What holds of all migrations found holds of those to apply.
migrations_to_apply-All :
    {W : Type 0} (P : LegacyMigration W → Type 0) (allow : Bool) (known : List ℤ) (max version : ℤ)
    (found ms : List (LegacyMigration W))
    → All P found
    → migrations_to_apply allow known max version found ≡ ok ms
    → All P ms
unfolding migrations_to_apply find_missing_migrations
migrations_to_apply-All P allow known max version found ms a h =
    let m = sort_by (λ m. m.version) (missing_of (applied_of known []) max found) in
    let n = new_of (applied_of known []) max version found in
    let b =
      All-sort_by (λ m. m.version) P (missing_of (applied_of known []) max found)
        (All-missing (applied_of known []) max version P found a) in
    let c = All-new (applied_of known []) max version P found a in
    elim (Bool-cases (not (is_nil m) && not allow)) [
      | inl e ↦ ground arith
      | inr e ↦
          let d : ((if allow then m else []) ++ n) ≡ ms = ground arith in
          subst (All P) d (All-append P (if allow then m else []) n (if-All P allow m b) c)
    ]

module _ {W : Type 0} (driver : Driver W) (store : Store W)
    (collect : ℤ → ℤ → Result (List (LegacyMigration W))) (rows : W → List ListResult)
    (ledger : LegacyLedger driver store rows) where
  up_all-rows :
      (ms : List (LegacyMigration W)) (w u : W)
      → All (IsTame driver store rows) ms
      → up_all driver store collect false ms w ≡ (ok tt, u)
      → rows u ≡ recorded ms (rows w)
  unfolding up_all Leaves
  up_all-rows [] w u k h = let e : w ≡ u = ground arith in ap rows (sym e)
  up_all-rows (m ∷ ms) w u k h =
      let (x, t, p, q) =
        >>=-eq-ok (up_one driver store collect m) (λ _. up_all driver store collect false ms) w h in
      let a = run-Leaves driver store rows ledger true m k.0 w t p in
      up_all-rows ms t u k.1 q ∙ ap (recorded ms) a

  listed-rows :
      (w t : W) (known : List ℤ)
      → list_all_db_versions driver store w ≡ (ok known, t)
      → (known ≡ versions_of (rows w)) × (rows t ≡ rows w)
  unfolding list_all_db_versions
  listed-rows w t known h =
      let (rs, v, p, q) = >>=-eq-ok (store.list_migrations db) (λ rs. pure (versions_of rs)) w h in
      let (a, b) = ledger.list_reads db w v rs p in
      let c : versions_of rs ≡ known = ground arith in
      let d : v ≡ t = ground arith in (sym c ∙ ap versions_of a, ap rows (sym d) ∙ b)

  -- What an upward run with success has applied, from the world after the version table is there.
  abbrev pub HasApplied : Bool → ℤ → List (LegacyMigration W) → W → W → Type 0
  HasApplied allow version found t u =
      (max : ℤ) × (ms : List (LegacyMigration W)) × (last_version (versions_of (rows t)) ≡ ok max)
      × (migrations_to_apply allow (versions_of (rows t)) max version found ≡ ok ms)
      × ((ms ≡ []) ⊎ (rows u ≡ recorded ms (rows t)))

  apply-rows :
      (ms : List (LegacyMigration W)) (w u : W)
      → All (IsTame driver store rows) ms
      → apply_or_read driver store collect false ms w ≡ (ok tt, u)
      → (ms ≡ []) ⊎ (rows u ≡ recorded ms (rows w))
  unfolding apply_or_read
  apply-rows [] w u k h = inl refl
  apply-rows (m ∷ ms) w u k h = inr (up_all-rows (m ∷ ms) w u k h)

  module _ (allow : Bool) (version : ℤ) (found : List (LegacyMigration W))
      (tame : All (IsTame driver store rows) found) where
    choose : List ℤ → ℤ → Exec W Done
    choose known max = lift (migrations_to_apply allow known max version found) >>= λ ms.
        apply_or_read driver store collect false ms

    choose-rows :
        (known : List ℤ) (max : ℤ) (w u : W)
        → choose known max w ≡ (ok tt, u)
        → (ms : List (LegacyMigration W)) × (migrations_to_apply allow known max version found
            ≡ ok ms)
          × ((ms ≡ []) ⊎ (rows u ≡ recorded ms (rows w)))
    unfolding choose
    choose-rows known max w u h =
        let (ms, v, p, q) =
          >>=-eq-ok (lift (migrations_to_apply allow known max version found))
            (apply_or_read driver store collect false) w h in
        let a : migrations_to_apply allow known max version found ≡ ok ms = ap (λ r. r.0) p in
        let b : w ≡ v = ap (λ r. r.1) p in
        let q' =
          subst (λ v. apply_or_read driver store collect false ms v ≡ (ok tt, u)) (sym b) q in
        (
          ms,
          a,
          apply-rows ms w u
              (migrations_to_apply-All (IsTame driver store rows) allow known max version found ms
                tame a)
              q',
        )

    choose_last : List ℤ → Exec W Done
    choose_last known = lift (last_version known) >>= choose known

    last-rows :
        (known : List ℤ) (w u : W)
        → choose_last known w ≡ (ok tt, u)
        → (max : ℤ) × (ms : List (LegacyMigration W)) × (last_version known ≡ ok max)
          × (migrations_to_apply allow known max version found ≡ ok ms)
          × ((ms ≡ []) ⊎ (rows u ≡ recorded ms (rows w)))
    unfolding choose_last
    last-rows known w u h =
        let (max, v, p, q) = >>=-eq-ok (lift (last_version known)) (choose known) w h in
        let a : last_version known ≡ ok max = ap (λ r. r.0) p in
        let b : w ≡ v = ap (λ r. r.1) p in
        let q' = subst (λ v. choose known max v ≡ (ok tt, u)) (sym b) q in
        let (ms, c, d) = choose-rows known max w u q' in (max, ms, a, c, d)

    Chosen : List ℤ → W → W → Type 0
    Chosen known t u =
        (max : ℤ) × (ms : List (LegacyMigration W)) × (last_version known ≡ ok max)
        × (migrations_to_apply allow known max version found ≡ ok ms)
        × ((ms ≡ []) ⊎ (rows u ≡ recorded ms (rows t)))

    listed-HasApplied :
        (t u : W)
        → (list_all_db_versions driver store >>= choose_last) t ≡ (ok tt, u)
        → HasApplied allow version found t u
    unfolding Chosen
    listed-HasApplied t u h =
        let (known, v, p, q) = >>=-eq-ok (list_all_db_versions driver store) choose_last t h in
        let (a, b) = listed-rows t v known p in
        let (max, ms, c, d, e) = last-rows known v u q in
        let e' : (ms ≡ []) ⊎ (rows u ≡ recorded ms (rows t)) =
          subst (λ rs. (ms ≡ []) ⊎ (rows u ≡ recorded ms rs)) b e in
        subst (λ k. Chosen k t u) a (max, ms, c, d, e')

    -- `up_versioned` by the two options that it reads.
    up_with : Bool → Bool → Exec W Done
    up_with missing by_one =
        ensure_db_version driver store >> list_all_db_versions driver store >>= λ known.
        lift (last_version known) >>= λ max.
        lift (migrations_to_apply missing known max version found) >>= λ ms.
        apply_or_read driver store collect by_one ms

    -- An `UpToContext` with recorded versions that succeeds, not by one, has applied the migrations chosen
    -- from the versions in the table once it exists: each of them has a new row, in the order in which
    -- they were chosen, and no other row has changed. This holds where the migrations found stem
    -- from `.sql` and `.go` files and record their versions, their Go functions and SQL statements and
    -- the transactions leave the version table alone, and the store lists the rows of the table, adds
    -- those it is told to and deletes those of a version; where nothing is chosen, nothing is said of
    -- the rows.
    pub up_versioned-HasApplied :
        (o : Options) (w u : W)
        → o.allow_missing ≡ allow
        → o.apply_up_by_one ≡ false
        → up_versioned driver store collect o version found w ≡ (ok tt, u)
        → (v : ℤ) × (t : W) × (ensure_db_version driver store w ≡ (ok v, t))
          × HasApplied allow version found t u
    unfolding up_versioned choose choose_last up_with
    up_versioned-HasApplied o w u a b h =
        let h' = subst (λ c. up_with c o.apply_up_by_one w ≡ (ok tt, u)) a h in
        let k = subst (λ c. up_with allow c w ≡ (ok tt, u)) b h' in
        let (known, t', p, q) =
          >>=-eq-ok (ensure_db_version driver store >> list_all_db_versions driver store)
            choose_last w k in
        let (v, t, e, f) =
          >>=-eq-ok (ensure_db_version driver store) (λ _. list_all_db_versions driver store) w p in
        let g = subst (λ r. continue r.0 choose_last r.1 ≡ (ok tt, u)) (sym f) q in
        (v, t, e, listed-HasApplied t u g)
