-- ===== src/Legacy/Selection.antt =====
-- The migrations that `UpToContext` of up.go applies, against `UpVersions` of
-- internal/gooseutil/resolve.go, by which the provider chooses.
use pressly_goose_patches.Base.{
  ◌≡◌, refl, sym, subst, ap, ◌∙◌, Bool, true, false, not, ◌&&◌, List, [], ◌∷◌, ◌++◌, Option, none,
  some, if◌then◌else◌, is_nil, map, arith, All, All-imp, All-append, Bool-cases, inl, inr,
}
use pressly_goose_patches.Int.{
  ℤ, pos, ltb_ℤ, leb_ℤ, ◌≤ℤ◌, ltb_ℤ→lt, ltb_ℤ→le, le→leb_ℤ, eq_of_parts,
}
use pressly_goose_patches.Sort.{sort_by, insert_by, IsSorted}
use pressly_goose_patches.VersionMap.{VersionMap, has}
use pressly_goose_patches.Text.{codes}
use pressly_goose_patches.Outcome.{external, Result, ok, err}
use pressly_goose_patches.Resolve.{
  Resolved, DbVersions, scan_db, no_db_versions, find_missing, find_new, up_versions, sort,
}
use pressly_goose_patches.Legacy.{LegacyMigration}
use pressly_goose_patches.Legacy.Commands.{
  applied_of, last_version, missing_of, find_missing_migrations, new_of, migrations_to_apply,
}

-- A sorted list stays as it is.
module _ {A : Type 0} (key : A → ℤ) where
  insert_by-least :
      (v : A) (xs : List A) → All (λ y. key v ≤ℤ key y) xs → insert_by key v xs ≡ v ∷ xs
  unfolding insert_by
  insert_by-least v [] h = refl
  insert_by-least v (x ∷ xs) h = let e = le→leb_ℤ (key v) (key x) h.0 in rw e

  sort_by-sorted : (xs : List A) → IsSorted key xs → sort_by key xs ≡ xs
  unfolding sort_by
  sort_by-sorted [] s = refl
  sort_by-sorted (x ∷ xs) s =
      let e = sort_by-sorted xs s.1 in let l = insert_by-least x xs s.0 in rw (e, l)

  append-IsSorted :
      (m : ℤ) (xs ys : List A)
      → IsSorted key xs
      → IsSorted key ys
      → All (λ x. key x ≤ℤ m) xs
      → All (λ y. m ≤ℤ key y) ys
      → IsSorted key (xs ++ ys)
  append-IsSorted m [] ys s t a b = t
  append-IsSorted m (x ∷ xs) ys s t a b =
      let c = All-imp (λ y. m ≤ℤ key y) (λ y. key x ≤ℤ key y) ys (λ y h. omega arith) b in
      (All-append (λ y. key x ≤ℤ key y) xs ys s.0 c, append-IsSorted m xs ys s.1 t a.1 b)

  map-IsSorted : (xs : List A) → IsSorted key xs → IsSorted (λ v. v) (map key xs)
  map-IsSorted [] s = tt
  map-IsSorted (x ∷ xs) s = (map-All x xs s.0, map-IsSorted xs s.1)
    where
      map-All :
          (x : A) (xs : List A) → All (λ y. key x ≤ℤ key y) xs → All (λ v. key x ≤ℤ v) (map key xs)
      map-All x [] a = tt
      map-All x (y ∷ ys) a = (a.0, map-All x ys a.1)

-- What the two read of the versions of the database.
scan_db-applied : (vs : List ℤ) (s : DbVersions) → (scan_db vs s).applied ≡ applied_of vs s.applied
unfolding scan_db applied_of
scan_db-applied [] s = refl
scan_db-applied (v ∷ vs) s = scan_db-applied vs _

last-le :
    (v : ℤ) (vs : List ℤ) (m : ℤ)
    → IsSorted (λ v. v) (v ∷ vs)
    → last_version (v ∷ vs) ≡ ok m
    → v ≤ℤ m
unfolding last_version
last-le v [] m s h = let e : v ≡ m = ground arith in subst (λ m. v ≤ℤ m) e (omega arith)
last-le v (w ∷ vs) m s h = let l = last-le w vs m s.1 h in omega arith

if_le : (a b m : ℤ) → a ≤ℤ m → b ≤ℤ m → (if ltb_ℤ a b then b else a) ≤ℤ m
if_le a b m h k = elim (Bool-cases (ltb_ℤ a b)) [ inl e ↦ rw e k | inr e ↦ rw e h ]

scan_db-max :
    (vs : List ℤ) (s : DbVersions) (m : ℤ)
    → IsSorted (λ v. v) vs
    → last_version vs ≡ ok m
    → s.max ≤ℤ m
    → (scan_db vs s).max ≡ m
unfolding scan_db last_version
scan_db-max [] s m k h l = ground arith
scan_db-max (v ∷ []) s m k h l =
    let e : v ≡ m = ground arith in
    elim (Bool-cases (ltb_ℤ s.max v)) [
      | inl b ↦ rw b e
      | inr b ↦
          let c = ltb_ℤ→le s.max v b in
          let d : s.max ≡ v =
            eq_of_parts s.max v (let l' = subst (λ m. s.max ≤ℤ m) (sym e) l in omega arith) in
          rw b (d ∙ e)
    ]
scan_db-max (v ∷ w ∷ vs) s m k h l =
    let le = last-le v (w ∷ vs) m k h in scan_db-max (w ∷ vs) _ m k.1 h (if_le s.max v m l le)

module _ {W : Type 0} (applied : VersionMap Bool) (max target : ℤ) where
  abbrev key : LegacyMigration W → ℤ
  key m = m.version

  missing_lem :
      (ms : List (LegacyMigration W))
      → All (λ m. m.version ≤ℤ target) ms
      → map key (missing_of applied max ms)
        ≡ find_missing (record { applied = applied; max = max }) target (map key ms)
  unfolding missing_of find_missing
  missing_lem [] h = refl
  missing_lem (m ∷ ms) h =
      let e = missing_lem ms h.1 in let l = le→leb_ℤ m.version target h.0 in ground arith

  new_lem :
      (ms : List (LegacyMigration W))
      → map key (new_of applied max target ms)
        ≡ find_new (record { applied = applied; max = max }) target (map key ms)
  unfolding new_of find_new
  new_lem [] = refl
  new_lem (m ∷ ms) = let e = new_lem ms in ground arith

  missing_below :
      (ms : List (LegacyMigration W)) → All (λ m. m.version ≤ℤ max) (missing_of applied max ms)
  unfolding missing_of
  missing_below [] = tt
  missing_below (m ∷ ms) = elim (Bool-cases (not (has m.version applied) && ltb_ℤ m.version max)) [
    | inl e ↦
        let b : ltb_ℤ m.version max ≡ true = ground arith in
        let l = ltb_ℤ→lt m.version max b in rw e (omega arith, missing_below ms)
    | inr e ↦ rw e (missing_below ms)
  ]

  new_above :
      (ms : List (LegacyMigration W)) → All (λ m. max ≤ℤ m.version) (new_of applied max target ms)
  unfolding new_of
  new_above [] = tt
  new_above (m ∷ ms) = elim (Bool-cases (has m.version applied)) [
    | inl a ↦ rw a (new_above ms)
    | inr a ↦ elim (Bool-cases (ltb_ℤ max m.version && leb_ℤ m.version target)) [
      | inl e ↦
          let b : ltb_ℤ max m.version ≡ true = ground arith in
          let l = ltb_ℤ→lt max m.version b in rw (a, e) (omega arith, new_above ms)
      | inr e ↦ rw (a, e) (new_above ms)
    ]
  ]

  -- A filter of a sorted list is sorted.
  pub All-missing :
      (P : LegacyMigration W → Type 0) (ms : List (LegacyMigration W))
      → All P ms
      → All P (missing_of applied max ms)
  unfolding missing_of
  All-missing P [] h = tt
  All-missing P (m ∷ ms) h =
      elim (Bool-cases (not (has m.version applied) && ltb_ℤ m.version max)) [
        | inl e ↦ rw e (h.0, All-missing P ms h.1)
        | inr e ↦ rw e (All-missing P ms h.1)
      ]

  missing-IsSorted :
      (ms : List (LegacyMigration W)) → IsSorted key ms → IsSorted key (missing_of applied max ms)
  unfolding missing_of
  missing-IsSorted [] s = tt
  missing-IsSorted (m ∷ ms) s =
      elim (Bool-cases (not (has m.version applied) && ltb_ℤ m.version max)) [
        | inl e ↦ rw e (All-missing (λ n. m.version ≤ℤ n.version) ms s.0, missing-IsSorted ms s.1)
        | inr e ↦ rw e (missing-IsSorted ms s.1)
      ]

  pub All-new :
      (P : LegacyMigration W → Type 0) (ms : List (LegacyMigration W))
      → All P ms
      → All P (new_of applied max target ms)
  unfolding new_of
  All-new P [] h = tt
  All-new P (m ∷ ms) h = elim (Bool-cases (has m.version applied)) [
    | inl a ↦ rw a (All-new P ms h.1)
    | inr a ↦ elim (Bool-cases (ltb_ℤ max m.version && leb_ℤ m.version target)) [
      | inl e ↦ rw (a, e) (h.0, All-new P ms h.1)
      | inr e ↦ rw (a, e) (All-new P ms h.1)
    ]
  ]

  new-IsSorted :
      (ms : List (LegacyMigration W))
      → IsSorted key ms
      → IsSorted key (new_of applied max target ms)
  unfolding new_of
  new-IsSorted [] s = tt
  new-IsSorted (m ∷ ms) s = elim (Bool-cases (has m.version applied)) [
    | inl a ↦ rw a (new-IsSorted ms s.1)
    | inr a ↦ elim (Bool-cases (ltb_ℤ max m.version && leb_ℤ m.version target)) [
      | inl e ↦ rw (a, e) (All-new (λ n. m.version ≤ℤ n.version) ms s.0, new-IsSorted ms s.1)
      | inr e ↦ rw (a, e) (new-IsSorted ms s.1)
    ]
  ]

abbrev pub selected : {W : Type 0} → Result (List (LegacyMigration W)) → Option (List ℤ)
selected (ok ms) = some (map (λ m. m.version) ms)
selected (err _) = none

abbrev pub resolved : Resolved → Option (List ℤ)
resolved (Resolved.ok vs) = some vs
resolved (Resolved.err _) = none

map-append : {A B : Type 0} (f : A → B) (xs ys : List A) → map f (xs ++ ys) ≡ map f xs ++ map f ys
map-append f [] ys = refl
map-append f (x ∷ xs) ys = ap (λ l. f x ∷ l) (map-append f xs ys)

is_nil-map : {A B : Type 0} (f : A → B) (xs : List A) → is_nil (map f xs) ≡ is_nil xs
is_nil-map f [] = refl
is_nil-map f (x ∷ xs) = refl

-- The two choices, where the choice of `UpVersions` needs no sort.
chosen :
    {W : Type 0} (allow : Bool) (m n : List (LegacyMigration W))
    → sort (map (λ m. m.version) m ++ map (λ m. m.version) n) ≡ map (λ m. m.version) (m ++ n)
    → selected (
        if not (is_nil m) && not allow
        then err (external (codes "missing migrations"))
        else ok ((if allow then m else []) ++ n))
      ≡ (if not (is_nil (map (λ m. m.version) m)) && not allow
          then none
          else some (sort (map (λ m. m.version) m ++ map (λ m. m.version) n)))
chosen true [] n q = ap some (sym q)
chosen false [] n q = ap some (sym q)
chosen true (x ∷ m) n q = ap some (sym q)
chosen false (x ∷ m) n q = refl

module _ {W : Type 0} (known : List ℤ) (max target : ℤ) (found : List (LegacyMigration W)) where
  abbrev versions : List ℤ
  versions = map (λ m. m.version) found

  abbrev at : DbVersions
  at = record { applied = applied_of known []; max = max }

  -- `UpVersions` with its sort of the versions and its loop over the database undone.
  up_versions-at :
      (allow : Bool)
      → sort versions ≡ versions
      → scan_db known no_db_versions ≡ at
      → resolved (up_versions versions known target allow) ≡ (
          if not (is_nil (find_missing at target versions)) && not allow
          then none
          else some (sort (find_missing at target versions ++ find_new at target versions)))
  unfolding up_versions
  up_versions-at allow e f =
      rw (e, f)
        (elim (Bool-cases (not (is_nil (find_missing at target versions)) && not allow)) [
          | inl b ↦ rw b refl
          | inr b ↦ rw b refl
        ])

  -- The versions that `UpToContext` picks are those that `UpVersions` gives, and it refuses missing
  -- migrations exactly where `UpVersions` does: for migrations found in ascending order of their
  -- versions and none above the target, as `CollectMigrations` gives them, and the versions of the
  -- database in ascending order, the last of which is not negative.
  pub migrations_to_apply-up_versions :
      (allow : Bool)
      → IsSorted (λ m. m.version) found
      → All (λ m. m.version ≤ℤ target) found
      → IsSorted (λ v. v) known
      → last_version known ≡ ok max
      → pos 0 ≤ℤ max
      → selected (migrations_to_apply allow known max target found)
        ≡ resolved (up_versions versions known target allow)
  unfolding migrations_to_apply find_missing_migrations
  migrations_to_apply-up_versions allow s b k l z =
      let a = applied_of known [] in
      let m = missing_of a max found in
      let n = new_of a max target found in
      let e = sort_by-sorted (λ v. v) versions (map-IsSorted (λ m. m.version) found s) in
      let x = scan_db-applied known no_db_versions in
      let y = scan_db-max known no_db_versions max k l z in
      let f : scan_db known no_db_versions ≡ at = cc in
      let u = up_versions-at allow e f in
      let ms = sort_by-sorted (λ m. m.version) m (missing-IsSorted a max target found s) in
      let p =
        append-IsSorted (λ m. m.version) max m n (missing-IsSorted a max target found s)
          (new-IsSorted a max target found s) (missing_below a max target found)
          (new_above a max target found) in
      let q : sort (map (λ m. m.version) (m ++ n)) ≡ map (λ m. m.version) (m ++ n) =
        sort_by-sorted (λ v. v) (map (λ m. m.version) (m ++ n))
          (map-IsSorted (λ m. m.version) (m ++ n) p) in
      let ml = missing_lem a max target found b in
      let nl = new_lem a max target found in
      rw (u, ms, ← ml, ← nl)
        (chosen allow m n (ap sort (sym (map-append (λ m. m.version) m n)) ∙ q))
