-- ===== src/Legacy/Rollback.antt =====
-- down.go: the loop of `DownToContext` ends. The laws are those of a store whose rows are the versions
-- recorded: a deletion removes the rows of its version, and nothing else of a rollback touches them.
use pressly_goose_patches.Base.{
  ◌≡◌, sym, subst, ap, ◌∙◌, ◌≤◌, ◌<◌, Bool, true, false, ◌||◌, List, [], ◌∷◌, Option, none, some,
  if◌then◌else◌, arith, length, Bool-cases, Option-cases, inl, inr,
}
use pressly_goose_patches.Int.{ℤ, eqb_ℤ, eqb_ℤ_refl}
use pressly_goose_patches.VersionMap.{VersionMap, has, insert}
use pressly_goose_patches.Text.{Str, codes, has_suffix}
use pressly_goose_patches.SqlParser
use pressly_goose_patches.SqlParser.{from_bool}
use pressly_goose_patches.SqlParser.Machine.{parse_lines}
use pressly_goose_patches.Outcome.{Error, Result, ok, err, Exec, pure, fail, ◌>>◌, >>=-eq-ok}
use pressly_goose_patches.Provider.{Handle, db, tx, GoAction, Driver, Store, ListResult}
use pressly_goose_patches.Provider.Run.{Done}
use pressly_goose_patches.Registry.{Legacy}
use pressly_goose_patches.Legacy.{
  LegacyMigration, made, run_fn, insert_or_delete_version, record_if, exec_statements, or_rollback,
  in_tx, run_sql_migration, run_go_migration_no_tx, run_go_migration, run_parsed, run_opened,
  run_go, run,
}
use pressly_goose_patches.Legacy.Versions.{current_version}

abbrev pub without : ℤ → List ListResult → List ListResult
without v [] = []
without v (r ∷ rs) = let rest = without v rs in if eqb_ℤ r.version v then rest else r ∷ rest

length-without : (v : ℤ) (rs : List ListResult) → length (without v rs) ≤ length rs
length-without v [] = omega arith
length-without v (r ∷ rs) = let l = length-without v rs in ground arith

-- What a run in a direction does to the rows.
abbrev pub changed : Bool → ℤ → List ListResult → List ListResult
changed direction v rs =
    if direction then record { version = v; is_applied = true } ∷ rs else without v rs

-- The version that `EnsureDBVersionContext` finds has a row.
pub current_version-shrinks :
    (rs : List ListResult) (skip : VersionMap Bool) (v : ℤ)
    → current_version rs skip ≡ ok v
    → length (without v rs) < length rs
unfolding current_version
current_version-shrinks [] skip v h = ground arith
current_version-shrinks (r ∷ rs) skip v h =
    let l = length-without v rs in
    let a = current_version-shrinks rs skip v in
    let b = current_version-shrinks rs (insert r.version true skip) v in
    let c = eqb_ℤ_refl v in
    elim (Bool-cases (has r.version skip)) [
      | inl e ↦ let k : length (without v rs) < length rs = a (ground arith) in ground arith
      | inr e ↦ elim (Bool-cases r.is_applied) [
        | inl f ↦ let g : r.version ≡ v = ground arith in ground arith
        | inr f ↦ let k : length (without v rs) < length rs = b (ground arith) in ground arith
      ]
    ]

module _ {W : Type 0} (driver : Driver W) (store : Store W) (rows : W → List ListResult) where
  pub record LegacyLedger : Type 0 where
    pub begin_keeps : (w : W) → rows (driver.begin w).1 ≡ rows w
    pub commit_keeps : (w : W) → rows (driver.commit w).1 ≡ rows w
    pub exec_keeps : (h : Handle) (q : Str) (w : W) → rows (driver.exec h q w).1 ≡ rows w
    pub delete_removes :
        (h : Handle) (v : ℤ) (w : W)
        → (store.delete h v w).0 ≡ none
        → rows (store.delete h v w).1 ≡ without v (rows w)
    pub insert_adds :
        (h : Handle) (v : ℤ) (w : W)
        → (store.insert h v w).0 ≡ none
        → rows (store.insert h v w).1 ≡ record { version = v; is_applied = true } ∷ rows w
    pub list_reads :
        (h : Handle) (w u : W) (rs : List ListResult)
        → store.list_migrations h w ≡ (ok rs, u)
        → (rs ≡ rows w) × (rows u ≡ rows w)

  -- A migration whose versions are recorded and whose Go functions leave the version table alone.
  abbrev pub IsTameFn : Option (GoAction W) → Type 0
  IsTameFn none = Unit
  IsTameFn (some f) = (w : W) → rows (f w).1 ≡ rows w

  abbrev pub IsTameSide : Legacy W → Type 0
  IsTameSide l = IsTameFn l.fn_context × IsTameFn l.fn_no_tx_context

  abbrev pub IsTame : LegacyMigration W → Type 0
  IsTame m =
      (m.no_versioning ≡ false)
      × IsTameSide m.up
      × IsTameSide m.down
      × ((has_suffix m.source (codes ".sql") || has_suffix m.source (codes ".go")) ≡ true)

  -- What a success of an action leaves of the rows.
  unfoldable pub Leaves : (List ListResult → List ListResult) → Exec W Done → Type 0
  Leaves f m = (w u : W) → m w ≡ (ok tt, u) → rows u ≡ f (rows w)

  then-Leaves :
      (f g : List ListResult → List ListResult) (m n : Exec W Done)
      → Leaves f m
      → Leaves g n
      → Leaves (λ rs. g (f rs)) (m >> n)
  unfolding Leaves
  then-Leaves f g m n a b w u h =
      let (t, v, e, k) = >>=-eq-ok m (λ _. n) w h in
      let x = a w v e in let y = b v u k in y ∙ ap g x

  module _ (ledger : LegacyLedger) where
    made-Leaves :
        (c : W → Option Error × W) → ((w : W) → rows (c w).1 ≡ rows w) → Leaves (λ rs. rs) (made c)
    unfolding Leaves
    made-Leaves c k w u h =
        let e : (c w).1 ≡ u = ground arith in subst (λ u. rows u ≡ rows w) e (k w)

    pure-Leaves : Leaves (λ rs. rs) (pure tt)
    unfolding Leaves
    pure-Leaves w u e = let k : w ≡ u = ground arith in ap rows (sym k)

    exec-Leaves :
        (h : Handle) (qs : List Str) → Leaves (λ rs. rs) (exec_statements driver store h qs)
    unfolding exec_statements
    exec-Leaves h [] = pure-Leaves
    exec-Leaves h (q ∷ qs) =
        then-Leaves (λ rs. rs) (λ rs. rs) (made (driver.exec h q))
          (exec_statements driver store h qs)
          (made-Leaves (driver.exec h q) (ledger.exec_keeps h q)) (exec-Leaves h qs)

    fn-Leaves : (o : Option (GoAction W)) → IsTameFn o → Leaves (λ rs. rs) (run_fn o)
    unfolding run_fn Leaves
    fn-Leaves none k w u h = let e : w ≡ u = ground arith in ap rows (sym e)
    fn-Leaves (some f) k w u h =
        let e : (f w).1 ≡ u = ground arith in subst (λ u. rows u ≡ rows w) e (k w)

    record-Leaves :
        (h : Handle) (v : ℤ) (direction : Bool)
        → Leaves (changed direction v) (record_if driver store true h v direction)
    unfolding record_if insert_or_delete_version Leaves
    record-Leaves h v false w u e = elim (Option-cases (store.delete h v w).0) [
      | inl n ↦
          let k : (store.delete h v w).1 ≡ u = ground arith in
          subst (λ u. rows u ≡ without v (rows w)) k (ledger.delete_removes h v w n)
      | inr (x, n) ↦ ground arith
    ]
    record-Leaves h v true w u e = elim (Option-cases (store.insert h v w).0) [
      | inl n ↦
          let k : (store.insert h v w).1 ≡ u = ground arith in
          subst (λ u. rows u ≡ record { version = v; is_applied = true } ∷ rows w) k
            (ledger.insert_adds h v w n)
      | inr (x, n) ↦ ground arith
    ]

    or_rollback-ok :
        (r : Result Done × W) (u : W) → or_rollback driver store r ≡ (ok tt, u) → r ≡ (ok tt, u)
    unfolding or_rollback
    or_rollback-ok (ok _, w) u h = ground arith
    or_rollback-ok (err e, w) u h = ground arith

    rolled-Leaves :
        (f : List ListResult → List ListResult) (m : Exec W Done)
        → Leaves f m
        → Leaves f (λ w. or_rollback driver store (m w))
    unfolding Leaves
    rolled-Leaves f m k w u h = k w u (or_rollback-ok (m w) u h)

    in_tx-Leaves :
        (f : List ListResult → List ListResult) (m : Exec W Done)
        → Leaves f m
        → Leaves f (in_tx driver store m)
    unfolding in_tx
    in_tx-Leaves f m k =
        then-Leaves f (λ rs. rs) (made driver.begin >> (λ w. or_rollback driver store (m w)))
          (made driver.commit)
          (then-Leaves (λ rs. rs) f (made driver.begin) (λ w. or_rollback driver store (m w))
            (made-Leaves driver.begin ledger.begin_keeps) (rolled-Leaves f m k))
          (made-Leaves driver.commit ledger.commit_keeps)

    side-IsTame :
        (b : Bool) (up down : Legacy W)
        → IsTameSide up
        → IsTameSide down
        → IsTameSide (if b then up else down)
    side-IsTame true up down h k = h
    side-IsTame false up down h k = k

    module _ (direction : Bool) where
      sql-Leaves :
          (qs : List Str) (use_tx : Bool) (v : ℤ)
          → Leaves
              (changed direction v)
              (run_sql_migration driver store qs use_tx v direction false)
      unfolding run_sql_migration
      sql-Leaves qs true v =
          in_tx-Leaves (changed direction v)
            (exec_statements driver store tx qs >> record_if driver store true tx v direction)
            (then-Leaves (λ rs. rs) (changed direction v) (exec_statements driver store tx qs)
              (record_if driver store true tx v direction) (exec-Leaves tx qs)
              (record-Leaves tx v direction))
      sql-Leaves qs false v =
          then-Leaves (λ rs. rs) (changed direction v) (exec_statements driver store db qs)
            (record_if driver store true db v direction) (exec-Leaves db qs)
            (record-Leaves db v direction)

      go-Leaves :
          (o : Option (GoAction W)) (v : ℤ)
          → IsTameFn o
          → Leaves (changed direction v) (run_go_migration driver store o v direction true)
      unfolding run_go_migration
      go-Leaves none v k =
          in_tx-Leaves (changed direction v)
            (run_fn none >> record_if driver store true tx v direction)
            (then-Leaves (λ rs. rs) (changed direction v) (run_fn none)
              (record_if driver store true tx v direction) (fn-Leaves none k)
              (record-Leaves tx v direction))
      go-Leaves (some f) v k =
          in_tx-Leaves (changed direction v)
            (run_fn (some f) >> record_if driver store true tx v direction)
            (then-Leaves (λ rs. rs) (changed direction v) (run_fn (some f))
              (record_if driver store true tx v direction) (fn-Leaves (some f) k)
              (record-Leaves tx v direction))

      go_no_tx-Leaves :
          (o : Option (GoAction W)) (v : ℤ)
          → IsTameFn o
          → Leaves (changed direction v) (run_go_migration_no_tx driver store o v direction true)
      unfolding run_go_migration_no_tx
      go_no_tx-Leaves o v k =
          then-Leaves (λ rs. rs) (changed direction v) (run_fn o)
            (record_if driver store true db v direction) (fn-Leaves o k)
            (record-Leaves db v direction)

      fail-Leaves : (f : List ListResult → List ListResult) (e : Error) → Leaves f (fail e)
      unfolding Leaves
      fail-Leaves f e w u h = ground arith

      parsed-Leaves :
          (m : LegacyMigration W) (r : SqlParser.Result (List Str × Bool))
          → m.no_versioning ≡ false
          → Leaves (changed direction m.version) (run_parsed driver store m direction r)
      unfolding run_parsed
      parsed-Leaves m (SqlParser.err e) k = fail-Leaves (changed direction m.version) _
      parsed-Leaves m (SqlParser.ok (qs, use_tx)) k =
          subst
            (λ b.
              Leaves (changed direction m.version)
                (run_sql_migration driver store qs use_tx m.version direction b))
            (sym k) (sql-Leaves qs use_tx m.version)

      opened-Leaves :
          (m : LegacyMigration W) (o : Option (List Str × Bool))
          → m.no_versioning ≡ false
          → Leaves (changed direction m.version) (run_opened driver store m direction o)
      unfolding run_opened
      opened-Leaves m none k = fail-Leaves (changed direction m.version) _
      opened-Leaves m (some (lines, failed)) k =
          parsed-Leaves m (parse_lines driver.expand (from_bool direction) lines failed) k

      run_go-Leaves :
          (m : LegacyMigration W)
          → IsTame m
          → Leaves (changed direction m.version) (run_go driver store m direction)
      unfolding run_go
      run_go-Leaves m (k, a, b, c) =
          let (x, y) = side-IsTame direction m.up m.down a b in
          elim (Bool-cases m.registered) [
            | inl e ↦ elim (Bool-cases m.use_tx) [
              | inl t ↦ rw (e, t, k) (go-Leaves _ m.version x)
              | inr t ↦ rw (e, t, k) (go_no_tx-Leaves _ m.version y)
            ]
            | inr e ↦ rw e (fail-Leaves (changed direction m.version) _)
          ]

      -- A run that succeeds adds a row of its version, or it removes the rows of its version.
      pub run-Leaves :
          (m : LegacyMigration W)
          → IsTame m
          → Leaves (changed direction m.version) (run driver store m direction)
      unfolding run Leaves
      run-Leaves m (k, a, b, c) w u h = elim (Bool-cases (has_suffix m.source (codes ".sql"))) [
        | inl e ↦ opened-Leaves m (driver.open_file m.source w) k w u (ground arith)
        | inr e ↦ run_go-Leaves m (k, a, b, c) w u (ground arith)
      ]
