-- ===== src/Resolve/Pending.antt =====
-- `UpVersions` of internal/gooseutil/resolve.go: its outcome on every input, and what follows.
use pressly_goose_patches.Base.{
  ◌≡◌, refl, Bool, true, not, ◌&&◌, ◌||◌, List, [], ◌∷◌, ◌++◌, inl, inr, arith, if◌then◌else◌,
  is_nil, Bool-cases, All, All-imp,
}
use pressly_goose_patches.Int.{
  ℤ, pos, ltb_ℤ, leb_ℤ, eqb_ℤ, ◌≤ℤ◌, ◌<ℤ◌, eqb_ℤ_iff, leb_ℤ→le, leb_ℤ→lt, le→leb_ℤ, lt→leb_ℤ,
}
use pressly_goose_patches.Sort.{
  sort_by, insert_by, IsSorted, All-sort_by, sort_by-IsSorted, sort_by_of_IsSorted,
}
use pressly_goose_patches.Resolve.{ok, err, sort, no_db_versions, find_missing, up_versions}
use pressly_goose_patches.Resolve.Spec.{
  mem, is_pending, pending, max_version, IsPositive, scanned, has-scanned, max-scan_db,
  find_missing-append-find_new, pending-IsSorted,
}

-- The pending versions below the maximum of the database.
unfoldable pub out_of_order : List ℤ → ℤ → List ℤ → List ℤ
out_of_order db target [] = []
out_of_order db target (v ∷ vs) =
    let rest = out_of_order db target vs in
    if is_pending db target v && ltb_ℤ v (max_version (pos 0) db) then v ∷ rest else rest

module _ (db : List ℤ) (target : ℤ) where
  find_missing-eq-out_of_order :
      (vs : List ℤ) → find_missing (scanned db target) target vs ≡ out_of_order db target vs
  unfolding find_missing out_of_order
  find_missing-eq-out_of_order [] = refl
  find_missing-eq-out_of_order (v ∷ vs) =
      rw (has-scanned db target v, max-scan_db db no_db_versions, find_missing-eq-out_of_order vs)
        (unfold is_pending in ground arith)

  All-out_of_order : (P : ℤ → Type 0) (vs : List ℤ) → All P vs → All P (out_of_order db target vs)
  unfolding out_of_order
  All-out_of_order P [] h = tt
  All-out_of_order P (v ∷ vs) h =
      elim (Bool-cases (is_pending db target v && ltb_ℤ v (max_version (pos 0) db))) [
        | inl take ↦ rw take (h.0, All-out_of_order P vs h.1)
        | inr skip ↦ rw skip (All-out_of_order P vs h.1)
      ]

  out_of_order-IsSorted :
      (vs : List ℤ) → IsSorted (λ v. v) vs → IsSorted (λ v. v) (out_of_order db target vs)
  unfolding out_of_order
  out_of_order-IsSorted [] s = tt
  out_of_order-IsSorted (v ∷ vs) s =
      elim (Bool-cases (is_pending db target v && ltb_ℤ v (max_version (pos 0) db))) [
        | inl take ↦ rw take (All-out_of_order (λ w. v ≤ℤ w) vs s.0, out_of_order-IsSorted vs s.1)
        | inr skip ↦ rw skip (out_of_order-IsSorted vs s.1)
      ]

  -- Nothing pending, nothing out of order.
  pub out_of_order_nil : (vs : List ℤ) → pending db target vs ≡ [] → out_of_order db target vs ≡ []
  unfolding out_of_order pending
  out_of_order_nil [] h = refl
  out_of_order_nil (v ∷ vs) h = ground (arith, out_of_order_nil vs)

-- For files of positive versions `UpVersions` returns the pending versions in ascending order, each
-- as often as it is in the file list. Only where some of them lie below the maximum of the database,
-- and missing migrations are not allowed, it returns an error that lists exactly those.
pub up_versions_lem :
    (fsys db : List ℤ) (target : ℤ) (allow_missing : Bool)
    → All IsPositive fsys
    → up_versions fsys db target allow_missing ≡ (
        if is_nil (out_of_order db target (sort fsys)) || allow_missing
        then ok (pending db target (sort fsys))
        else err (record {
          missing = out_of_order db target (sort fsys);
          db_max_version = max_version (pos 0) db;
          target = target;
        }))
unfolding up_versions
up_versions_lem fsys db target allow p =
    let s = sort_by-IsSorted (λ v. v) fsys in
    let q = All-sort_by (λ v. v) IsPositive fsys p in
    let all = pending db target (sort fsys) in
    let late = out_of_order db target (sort fsys) in
    rw
      (
        find_missing-append-find_new db target (sort fsys) q s,
        find_missing-eq-out_of_order db target (sort fsys),
        max-scan_db db no_db_versions,
        sort_by_of_IsSorted (λ v. v) all (pending-IsSorted db target (sort fsys) s),
        sort_by_of_IsSorted (λ v. v) late (out_of_order-IsSorted db target (sort fsys) s),
      )
      (ground arith)

mem-insert_by : (v w : ℤ) (vs : List ℤ) → mem v (insert_by (λ x. x) w vs) ≡ (eqb_ℤ w v || mem v vs)
unfolding mem insert_by
mem-insert_by v w [] = refl
mem-insert_by v w (x ∷ vs) = ground (arith, mem-insert_by v w vs)

pub mem-sort : (v : ℤ) (vs : List ℤ) → mem v (sort vs) ≡ mem v vs
unfolding mem sort_by
mem-sort v [] = refl
mem-sort v (w ∷ vs) = rw (mem-insert_by v w (sort vs), mem-sort v vs)

pub mem-pending :
    (db : List ℤ) (target v : ℤ) (vs : List ℤ)
    → mem v (pending db target vs) ≡ (mem v vs && is_pending db target v)
unfolding mem pending
mem-pending db target v [] = refl
mem-pending db target v (w ∷ vs) = ground (arith, mem-pending db target v vs, eqb_ℤ_iff w v)

pub mem-append : (v : ℤ) (vs ws : List ℤ) → mem v (vs ++ ws) ≡ (mem v vs || mem v ws)
unfolding mem
mem-append v [] ws = refl
mem-append v (w ∷ vs) ws = ground (arith, mem-append v vs ws)

pub out-eq-pending :
    (fsys db : List ℤ) (target : ℤ) (allow_missing : Bool) (out : List ℤ)
    → All IsPositive fsys
    → up_versions fsys db target allow_missing ≡ ok out
    → out ≡ pending db target (sort fsys)
out-eq-pending fsys db target allow out p e = ground (arith, up_versions_lem fsys db target allow p)

abbrev IsIn : List ℤ → ℤ → Type 0
IsIn vs v = mem v vs ≡ true

IsIn-self : (vs : List ℤ) → All (IsIn vs) vs
unfolding mem
IsIn-self [] = tt
IsIn-self (v ∷ vs) = (
  ground (arith, eqb_ℤ_iff v v),
  All-imp (IsIn vs) (IsIn (v ∷ vs)) vs (λ w h. ground arith) (IsIn-self vs),
)

-- With the pending versions of `all` applied, nothing of `all` is pending at that target.
pending_again :
    (db : List ℤ) (target : ℤ) (all vs : List ℤ)
    → All (IsIn all) vs
    → pending (pending db target all ++ db) target vs ≡ []
unfolding pending
pending_again db target all [] h = refl
pending_again db target all (v ∷ vs) h =
    let taken = pending db target all in
    ground (
      arith,
      pending_again db target all vs h.1,
      mem-append v taken db,
      mem-pending db target v all,
    )

-- For files of positive versions, where `UpVersions` succeeds: a version is applied exactly if it is
-- a file's, is not in the database and is not above the target; and the versions are applied in
-- ascending order.
pub mem-up_versions :
    (fsys db : List ℤ) (target : ℤ) (allow_missing : Bool) (out : List ℤ)
    → All IsPositive fsys
    → up_versions fsys db target allow_missing ≡ ok out
    → ((v : ℤ) → mem v out ≡ (mem v fsys && not (mem v db) && leb_ℤ v target))
      × IsSorted (λ v. v) out
unfolding is_pending
mem-up_versions fsys db target allow out p e =
    let all = sort fsys in
    rw (out-eq-pending fsys db target allow out p e) (
      (λ v. rw (mem-pending db target v all, mem-sort v fsys) (ground arith)),
      pending-IsSorted db target all (sort_by-IsSorted (λ v. v) fsys),
    )

-- For files of positive versions: once the versions that `UpVersions` returns are in the database,
-- nothing is left to apply at the same target.
pub up_versions_settled :
    (fsys db : List ℤ) (target : ℤ) (allow_missing : Bool) (out : List ℤ)
    → All IsPositive fsys
    → up_versions fsys db target allow_missing ≡ ok out
    → (again : Bool) → up_versions fsys (out ++ db) target again ≡ ok []
up_versions_settled fsys db target allow out p e again =
    let all = sort fsys in
    let none_left = pending_again db target all all (IsIn-self all) in
    let later = pending db target all ++ db in
    rw (
      out-eq-pending fsys db target allow out p e,
      up_versions_lem fsys later target again p,
      none_left,
      out_of_order_nil later target all none_left,
    )

pending_above :
    (db : List ℤ) (low : ℤ) (vs : List ℤ) → All (λ v. low <ℤ v) vs → pending db low vs ≡ []
unfolding pending
pending_above db low [] h = refl
pending_above db low (v ∷ vs) h = ground (arith, pending_above db low vs h.1, lt→leb_ℤ v low h.0)

pending_step :
    (db : List ℤ) (low high : ℤ) (all vs : List ℤ)
    → low ≤ℤ high
    → IsSorted (λ v. v) vs
    → All (IsIn all) vs
    → pending db low vs ++ pending (pending db low all ++ db) high vs ≡ pending db high vs
unfolding pending
pending_step db low high all [] h s i = refl
pending_step db low high all (v ∷ vs) h s i =
    let ih = pending_step db low high all vs h s.1 i.1 in
    let later = mem-append v (pending db low all) db in
    let first = mem-pending db low v all in
    elim (Bool-cases (leb_ℤ v low)) [
      | inl below ↦
          let le = leb_ℤ→le v low below in
          ground (arith, ih, later, first, i.0, below, le→leb_ℤ v high (omega arith))
      | inr above ↦
          let lt = leb_ℤ→lt v low above in
          let over = All-imp (λ w. v ≤ℤ w) (λ w. low <ℤ w) vs (λ w le. omega arith) s.0 in
          ground (arith, ih, later, first, i.0, above, pending_above db low vs over)
    ]

-- For files of positive versions, with missing migrations allowed: migrating to a low target and then
-- to a higher one applies, in the same order, the versions that migrating to the higher one at once
-- applies.
pub up_versions_in_two_steps :
    (fsys db : List ℤ) (low high : ℤ) (first second : List ℤ)
    → All IsPositive fsys
    → low ≤ℤ high
    → up_versions fsys db low true ≡ ok first
    → up_versions fsys (first ++ db) high true ≡ ok second
    → up_versions fsys db high true ≡ ok (first ++ second)
up_versions_in_two_steps fsys db low high first second p h e f =
    let all = sort fsys in
    let first_eq = out-eq-pending fsys db low true first p e in
    let second_eq = out-eq-pending fsys (first ++ db) high true second p f in
    rw (up_versions_lem fsys db high true p, first_eq, second_eq)
      (rw
        (
          first_eq,
          pending_step db low high all all h (sort_by-IsSorted (λ v. v) fsys) (IsIn-self all),
        )
        (ground arith))
