-- ===== src/Sort.antt =====
-- Go's `slices.Sort`, `sort.Slice` and `sort.SliceStable` by an `int64` key, as a stable insertion
-- sort. The source sorts plain numbers, or migrations of distinct versions, where every sorting
-- algorithm gives the same list.
use pressly_goose_patches.Base.{
  ◌≡◌, refl, List, [], ◌∷◌, inl, inr, arith, if◌then◌else◌, All, Bool-cases,
}
use pressly_goose_patches.Int.{ℤ, ◌≤ℤ◌, leb_ℤ, leb_ℤ→le, leb_ℤ→lt, le→leb_ℤ}

module _ {A : Type 0} (key : A → ℤ) where
  unfoldable pub insert_by : A → List A → List A
  insert_by v [] = v ∷ []
  insert_by v (x ∷ xs) = if leb_ℤ (key v) (key x) then v ∷ x ∷ xs else x ∷ insert_by v xs

  unfoldable pub sort_by : List A → List A
  unfolding insert_by
  sort_by [] = []
  sort_by (x ∷ xs) = insert_by x (sort_by xs)

  abbrev pub IsSorted : List A → Type 0
  IsSorted [] = Unit
  IsSorted (x ∷ xs) = All (λ y. key x ≤ℤ key y) xs × IsSorted xs

module _ {A : Type 0} (key : A → ℤ) where
  pub All-le_trans :
      (x y : A) (xs : List A)
      → key x ≤ℤ key y
      → All (λ z. key y ≤ℤ key z) xs
      → All (λ z. key x ≤ℤ key z) xs
  All-le_trans x y [] h a = tt
  All-le_trans x y (z ∷ xs) h a = (omega arith, All-le_trans x y xs h a.1)

  module _ (P : A → Type 0) where
    pub All-insert_by : (v : A) (xs : List A) → P v → All P xs → All P (insert_by key v xs)
    unfolding insert_by
    All-insert_by v [] h a = (h, tt)
    All-insert_by v (x ∷ xs) h a = elim (Bool-cases (leb_ℤ (key v) (key x))) [
      | inl le ↦ rw le (h, a)
      | inr gt ↦ rw gt (a.0, All-insert_by v xs h a.1)
    ]

    pub All-sort_by : (xs : List A) → All P xs → All P (sort_by key xs)
    unfolding sort_by
    All-sort_by [] a = tt
    All-sort_by (x ∷ xs) a = All-insert_by x (sort_by key xs) a.0 (All-sort_by xs a.1)

  insert_by-IsSorted : (v : A) (xs : List A) → IsSorted key xs → IsSorted key (insert_by key v xs)
  unfolding insert_by
  insert_by-IsSorted v [] s = (tt, tt)
  insert_by-IsSorted v (x ∷ xs) s = elim (Bool-cases (leb_ℤ (key v) (key x))) [
    | inl le ↦ let h = leb_ℤ→le (key v) (key x) le in rw le ((h, All-le_trans v x xs h s.0), s)
    | inr gt ↦
        let h = leb_ℤ→lt (key v) (key x) gt in
        rw gt
          (All-insert_by (λ y. key x ≤ℤ key y) v xs (omega arith) s.0, insert_by-IsSorted v xs s.1)
  ]

  pub sort_by-IsSorted : (xs : List A) → IsSorted key (sort_by key xs)
  unfolding sort_by
  sort_by-IsSorted [] = tt
  sort_by-IsSorted (x ∷ xs) = insert_by-IsSorted x (sort_by key xs) (sort_by-IsSorted xs)

  -- Among sorted elements the test of the insertion decides where an element may stand.
  pub insert_by_head :
      (v : A) (xs : List A) → All (λ y. key v ≤ℤ key y) xs → insert_by key v xs ≡ v ∷ xs
  unfolding insert_by
  insert_by_head v [] h = refl
  insert_by_head v (x ∷ xs) h = rw (le→leb_ℤ (key v) (key x) h.0)

  pub sort_by_of_IsSorted : (xs : List A) → IsSorted key xs → sort_by key xs ≡ xs
  unfolding sort_by
  sort_by_of_IsSorted [] s = refl
  sort_by_of_IsSorted (x ∷ xs) s = rw (sort_by_of_IsSorted xs s.1) (insert_by_head x xs s.0)
