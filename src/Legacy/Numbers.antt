-- ===== src/Legacy/Numbers.antt =====
-- fix.go: the versions that timestamped migrations are given, and the renaming of their files.
use pressly_goose_patches.Base.{
  ◌≡◌, refl, sym, subst, ap, ◌∙◌, ℕ, ◌+◌, ◌-◌, ◌^◌, ◌<◌, false, List, [], ◌∷◌, length, ◌==◌, arith,
  All, Bool-cases, inl, inr, map, ◌⊎◌, none, some, Option-cases,
}
use pressly_goose_patches.Int.{ℤ, pos, negsuc, ◌<ℤ◌, ◌≤ℤ◌, pos_part}
use pressly_goose_patches.Sort.{IsSorted}
use pressly_goose_patches.Outcome.{Error, Result, ok, err, Result-cases}
use pressly_goose_patches.Legacy.{LegacyMigration}
use pressly_goose_patches.Legacy.Files.{last_of}
use pressly_goose_patches.Legacy.Fix.{
  System, next_version, is_before_epoch, versioned, timestamped, version_after, numbered,
  renumbering, rename_all, replace_first, fix,
}
use pressly_goose_patches.Legacy.Commands.{min_version, max_version}
use pressly_goose_patches.Provider.Run.{Done}

positive-pos : (v : ℤ) → pos 0 <ℤ v → v ≡ pos (pos_part v)
positive-pos (pos n) h = refl
positive-pos (negsuc n) h = ground arith

module _ {W : Type 0} where
  abbrev pub AreFrom : ℕ → List (LegacyMigration W × ℤ) → Type 0
  AreFrom n [] = Unit
  AreFrom n ((m, v) ∷ xs) = (v ≡ pos n) × AreFrom (n + 1) xs

  -- The largest version of a sorted list of positive ones, or 0.
  abbrev pub top : Result (LegacyMigration W) → ℕ
  top (ok m) = pos_part m.version
  top (err e) = 0

  last_of-All :
      (P : LegacyMigration W → Type 0) (ms : List (LegacyMigration W)) (m : LegacyMigration W)
      → All P ms
      → last_of ms ≡ ok m
      → P m
  unfolding last_of
  last_of-All P [] m a h = ground arith
  last_of-All P (n ∷ []) m a h = let e : n ≡ m = ground arith in subst P e a.0
  last_of-All P (n ∷ k ∷ ms) m a h = last_of-All P (k ∷ ms) m a.1 h

  last_of-greatest :
      (ms : List (LegacyMigration W)) (m : LegacyMigration W)
      → IsSorted (λ m. m.version) ms
      → last_of ms ≡ ok m
      → All (λ n. n.version ≤ℤ m.version) ms
  unfolding last_of
  last_of-greatest [] m s h = tt
  last_of-greatest (n ∷ []) m s h =
      let e : n ≡ m = ground arith in (subst (λ m. n.version ≤ℤ m.version) e (omega arith), tt)
  last_of-greatest (n ∷ k ∷ ms) m s h =
      let r = last_of-greatest (k ∷ ms) m s.1 h in
      let a = last_of-All (λ k. n.version ≤ℤ k.version) (k ∷ ms) m s.0 h in (a, r)

  -- A list without a last element is empty.
  last_of-err :
      (P : LegacyMigration W → Type 0) (ms : List (LegacyMigration W)) (e : Error)
      → last_of ms ≡ err e
      → All P ms
  unfolding last_of
  last_of-err P [] e h = tt
  last_of-err P (n ∷ []) e h = ground arith
  last_of-err P (n ∷ k ∷ ms) e h =
      let a = last_of-err (λ _. P n) (k ∷ ms) e h in (a.0, last_of-err P (k ∷ ms) e h)

  below_top :
      (ms : List (LegacyMigration W))
      → IsSorted (λ m. m.version) ms
      → All (λ m. pos 0 <ℤ m.version) ms
      → All (λ m. m.version ≤ℤ pos (top (last_of ms))) ms
  below_top ms s a = elim (Result-cases (last_of ms)) [
    | inl (m, e) ↦
        let p = positive-pos m.version (last_of-All (λ m. pos 0 <ℤ m.version) ms m a e) in
        let g = last_of-greatest ms m s e in
        let t : m.version ≡ pos (top (last_of ms)) = p ∙ ap (λ r. pos (top r)) (sym e) in
        subst (λ v. All (λ n. n.version ≤ℤ v) ms) t g
    | inr (x, e) ↦ last_of-err (λ m. m.version ≤ℤ pos (top (last_of ms))) ms x e
  ]

module _ {W : Type 0} (system : System W) where
  numbered-AreFrom :
      (n : ℕ) (ms : List (LegacyMigration W))
      → n + length ms < 2 ^ 63
      → AreFrom n (numbered system (pos n) ms)
  unfolding numbered next_version
  numbered-AreFrom n [] h = tt
  numbered-AreFrom n (m ∷ ms) h =
      let e : (n == 2 ^ 63 - 1) ≡ false = ground arith in
      rw e (refl, numbered-AreFrom (n + 1) ms (omega arith))

  numbered-migrations :
      (v : ℤ) (ms : List (LegacyMigration W)) → map (λ x. x.0) (numbered system v ms) ≡ ms
  unfolding numbered
  numbered-migrations v [] = refl
  numbered-migrations v (m ∷ ms) = ap (λ l. m ∷ l) (numbered-migrations (next_version v) ms)

  All-versioned :
      (P : LegacyMigration W → Type 0) (ms : List (LegacyMigration W))
      → All P ms
      → All P (versioned system ms)
  unfolding versioned
  All-versioned P [] a = tt
  All-versioned P (m ∷ ms) a =
      elim (Bool-cases (is_before_epoch (system.parse_time (system.decimal m.version)))) [
        | inl e ↦ rw e (a.0, All-versioned P ms a.1)
        | inr e ↦ rw e (All-versioned P ms a.1)
      ]

  versioned-IsSorted :
      (ms : List (LegacyMigration W))
      → IsSorted (λ m. m.version) ms
      → IsSorted (λ m. m.version) (versioned system ms)
  unfolding versioned
  versioned-IsSorted [] s = tt
  versioned-IsSorted (m ∷ ms) s =
      elim (Bool-cases (is_before_epoch (system.parse_time (system.decimal m.version)))) [
        | inl e ↦
            rw e (All-versioned (λ n. m.version ≤ℤ n.version) ms s.0, versioned-IsSorted ms s.1)
        | inr e ↦ rw e (versioned-IsSorted ms s.1)
      ]

  from_top :
      (r : Result (LegacyMigration W)) (ts : List (LegacyMigration W))
      → ((m : LegacyMigration W) → r ≡ ok m → pos 0 <ℤ m.version)
      → top r + length ts + 1 < 2 ^ 63
      → AreFrom (top r + 1) (numbered system (version_after system r) ts)
  unfolding version_after next_version
  from_top (err e) ts k h = numbered-AreFrom 1 ts (omega arith)
  from_top (ok m) ts k h =
      let p = k m refl in
      let e : m.version ≡ pos (pos_part m.version) = positive-pos m.version p in
      let b : (pos_part m.version == 2 ^ 63 - 1) ≡ false = ground arith in
      let f : next_version m.version ≡ pos (pos_part m.version + 1) =
        ap next_version e ∙ rw b refl in
      rw f (numbered-AreFrom (pos_part m.version + 1) ts (omega arith))

  renumbering-AreFrom :
      (ms : List (LegacyMigration W))
      → IsSorted (λ m. m.version) ms
      → All (λ m. pos 0 <ℤ m.version) ms
      → top (last_of (versioned system ms)) + length (timestamped system ms) + 1 < 2 ^ 63
      → (map (λ x. x.0) (renumbering system ms) ≡ timestamped system ms)
        × AreFrom (top (last_of (versioned system ms)) + 1) (renumbering system ms)
        × All (λ m. m.version ≤ℤ pos (top (last_of (versioned system ms)))) (versioned system ms)
  unfolding renumbering
  renumbering-AreFrom ms s a h =
      let vs = versioned system ms in
      let ps = All-versioned (λ m. pos 0 <ℤ m.version) ms a in
      let q : (m : LegacyMigration W) → last_of vs ≡ ok m → pos 0 <ℤ m.version =
        λ m e. last_of-All (λ m. pos 0 <ℤ m.version) vs m ps e in
      (
        numbered-migrations _ _,
        from_top (last_of vs) (timestamped system ms) q h,
        below_top vs (versioned-IsSorted ms s) ps,
      )

  -- The files of the migrations are renamed one after the other, their versions in the names to
  -- consecutive numbers from `n`, up to the first error, which is the result.
  abbrev pub Renames : ℕ → List (LegacyMigration W) → W → Result Done × W → Type 0
  Renames n [] w r = r ≡ (ok tt, w)
  Renames n (m ∷ ms) w r =
      let new_name =
        replace_first (system.decimal m.version) (system.five_digits (pos n)) m.source in
      let (failure, t) = system.rename m.source new_name w in
      ((failure ≡ none) × Renames (n + 1) ms t r)
      ⊎ ((e : Error) × (failure ≡ some e) × (r ≡ (err e, t)))

  rename_all-Renames :
      (n : ℕ) (xs : List (LegacyMigration W × ℤ)) (w : W)
      → AreFrom n xs
      → Renames n (map (λ x. x.0) xs) w (rename_all system xs w)
  unfolding rename_all
  rename_all-Renames n [] w a = refl
  rename_all-Renames n ((m, v) ∷ xs) w (e, a) =
      let new_name =
        replace_first (system.decimal m.version) (system.five_digits (pos n)) m.source in
      let t = (system.rename m.source new_name w).1 in
      elim (Option-cases (system.rename m.source new_name w).0) [
        | inl ok_eq ↦ rw e (inl (ok_eq, rw ok_eq (rename_all-Renames (n + 1) xs t a)))
        | inr (x, failed) ↦ rw e (inr (x, failed, rw failed refl))
      ]

  -- Where the migrations of the directory are collected, `Fix` renames the files of the timestamped
  -- ones and no others, in their order, up to the first renaming that fails, with whose error it
  -- returns. The first occurrence of the old version in the path is replaced by the new one, written
  -- with five digits, and the new versions are consecutive numbers from the one after the largest
  -- version that is no timestamp, which no other such version exceeds. This is for migrations in
  -- ascending order of positive versions, and where the numbers stay below 2^63.
  pub fix-Renames :
      (collect : ℤ → ℤ → Result (List (LegacyMigration W))) (ms : List (LegacyMigration W)) (w : W)
      → collect min_version max_version ≡ ok ms
      → IsSorted (λ m. m.version) ms
      → All (λ m. pos 0 <ℤ m.version) ms
      → top (last_of (versioned system ms)) + length (timestamped system ms) + 1 < 2 ^ 63
      → Renames
          (top (last_of (versioned system ms)) + 1)
          (timestamped system ms)
          w
          (fix system collect w)
        × All (λ m. m.version ≤ℤ pos (top (last_of (versioned system ms)))) (versioned system ms)
  unfolding fix
  fix-Renames collect ms w e s a h =
      let (same, from, below) = renumbering-AreFrom ms s a h in
      let n = top (last_of (versioned system ms)) + 1 in
      let r = rename_all-Renames n (renumbering system ms) w from in
      let q = subst (λ l. Renames n l w (rename_all system (renumbering system ms) w)) same r in
      (rw e q, below)
