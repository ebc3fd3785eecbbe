-- ===== src/Resolve/Spec.antt =====
-- What `UpVersions` returns, against a description that does not look at the database's maximum.
use pressly_goose_patches.Base.{
  ◌≡◌, refl, Bool, true, false, not, ◌&&◌, ◌||◌, List, [], ◌∷◌, ◌++◌, ◌⊎◌, inl, inr, arith,
  if◌then◌else◌, Bool-cases, All,
}
use pressly_goose_patches.Int.{
  ℤ, pos, ltb_ℤ, leb_ℤ, eqb_ℤ, ◌≤ℤ◌, ◌<ℤ◌, eqb_ℤ_iff, ltb_ℤ→lt, ltb_ℤ→le, lt→ltb_ℤ, le→ltb_ℤ,
  eq_of_parts,
}
use pressly_goose_patches.Sort.{IsSorted, All-le_trans}
use pressly_goose_patches.VersionMap.{has, has-insert, lookup}
use pressly_goose_patches.Resolve.{DbVersions, scan_db, no_db_versions, find_missing, find_new}

-- Membership of a version in a list.
unfoldable pub mem : ℤ → List ℤ → Bool
mem v [] = false
mem v (w ∷ ws) = eqb_ℤ w v || mem v ws

-- The versions that are wanted: not in the database, and not above the target.
unfoldable pub is_pending : List ℤ → ℤ → ℤ → Bool
is_pending db target v = not (mem v db) && leb_ℤ v target

unfoldable pub pending : List ℤ → ℤ → List ℤ → List ℤ
unfolding is_pending
pending db target [] = []
pending db target (v ∷ vs) =
    let rest = pending db target vs in if is_pending db target v then v ∷ rest else rest

-- The greatest version of the database, or 0.
unfoldable pub max_version : ℤ → List ℤ → ℤ
max_version m [] = m
max_version m (v ∷ vs) = max_version (if ltb_ℤ m v then v else m) vs

pub has-scan_db :
    (db : List ℤ) (s : DbVersions) (v : ℤ)
    → has v (scan_db db s).applied ≡ (mem v db || has v s.applied)
unfolding scan_db mem
has-scan_db [] s v = refl
has-scan_db (w ∷ ws) s v = rw (has-scan_db ws _ v) (rw has-insert (ground arith))

pub max-scan_db : (db : List ℤ) (s : DbVersions) → (scan_db db s).max ≡ max_version s.max db
unfolding scan_db max_version
max-scan_db [] s = refl
max-scan_db (w ∷ ws) s = max-scan_db ws _

-- The maximum is the one it started from, or a version of the list.
max_version-mem :
    (m : ℤ) (db : List ℤ) → (max_version m db ≡ m) ⊎ (mem (max_version m db) db ≡ true)
unfolding max_version mem
max_version-mem m [] = inl refl
max_version-mem m (w ∷ ws) =
    let m' = if ltb_ℤ m w then w else m in
    ground (arith, max_version-mem m' ws, eqb_ℤ_iff w (max_version m' ws))

abbrev pub IsPositive : ℤ → Type 0
IsPositive v = pos 0 <ℤ v

-- Among sorted positive versions, those below the maximum and those above it, in this order, are
-- all the pending ones.
module _ (db : List ℤ) (target : ℤ) where
  abbrev pub scanned : DbVersions
  scanned = scan_db db no_db_versions

  pub has-scanned : (v : ℤ) → has v scanned.applied ≡ mem v db
  unfolding has lookup
  has-scanned v = rw has-scan_db (ground arith)

  find_missing_above :
      (vs : List ℤ) → All (λ v. scanned.max ≤ℤ v) vs → find_missing scanned target vs ≡ []
  unfolding find_missing
  find_missing_above [] h = refl
  find_missing_above (v ∷ vs) h =
      rw (find_missing_above vs h.1, le→ltb_ℤ v scanned.max h.0) (ground arith)

  max_not_pending : (v : ℤ) → IsPositive v → scanned.max ≡ v → mem v db ≡ true
  max_not_pending v h e = ground (arith, max-scan_db db no_db_versions, max_version-mem (pos 0) db)

  max_lt_pending : (v : ℤ) → IsPositive v → mem v db ≡ false → scanned.max ≤ℤ v → scanned.max <ℤ v
  max_lt_pending v h new le = elim (Bool-cases (ltb_ℤ scanned.max v)) [
    | inl lt ↦ ltb_ℤ→lt scanned.max v lt
    | inr ge ↦
        let ge' = ltb_ℤ→le scanned.max v ge in
        cc (new, max_not_pending v h (eq_of_parts scanned.max v (omega arith)))
  ]

  pub find_missing-append-find_new :
      (vs : List ℤ)
      → All IsPositive vs
      → IsSorted (λ v. v) vs
      → find_missing scanned target vs ++ find_new scanned target vs ≡ pending db target vs
  unfolding find_missing find_new pending
  find_missing-append-find_new [] p s = refl
  find_missing-append-find_new (v ∷ vs) p s =
      let ih = find_missing-append-find_new vs p.1 s.1 in
      rw (has-scanned v) (elim (Bool-cases (mem v db)) [
        | inl old ↦ rw (old, is_pending) ih
        | inr new ↦ elim (Bool-cases (ltb_ℤ v scanned.max)) [
          | inl below ↦
              let lt = ltb_ℤ→lt v scanned.max below in
              rw (new, below, le→ltb_ℤ scanned.max v (omega arith))
                (unfold is_pending in ground arith)
          | inr above ↦
              let le = ltb_ℤ→le v scanned.max above in
              let rest = find_missing_above vs (All-le_trans (λ w. w) scanned.max v vs le s.0) in
              rw (new, above, lt→ltb_ℤ scanned.max v (max_lt_pending v p.0 new le), rest)
                (ground (arith, ih))
        ]
      ])

  pub All-pending : (P : ℤ → Type 0) (vs : List ℤ) → All P vs → All P (pending db target vs)
  unfolding pending
  All-pending P [] h = tt
  All-pending P (v ∷ vs) h = elim (Bool-cases (is_pending db target v)) [
    | inl take ↦ rw take (h.0, All-pending P vs h.1)
    | inr skip ↦ rw skip (All-pending P vs h.1)
  ]

  pub pending-IsSorted :
      (vs : List ℤ) → IsSorted (λ v. v) vs → IsSorted (λ v. v) (pending db target vs)
  unfolding pending
  pending-IsSorted [] s = tt
  pending-IsSorted (v ∷ vs) s = elim (Bool-cases (is_pending db target v)) [
    | inl take ↦ rw take (All-pending (λ w. v ≤ℤ w) vs s.0, pending-IsSorted vs s.1)
    | inr skip ↦ rw skip (pending-IsSorted vs s.1)
  ]
