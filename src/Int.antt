-- ===== src/Int.antt =====
-- Signed integers over the native numbers, for Go's `int64`: every value in the model is compared
-- and stored, and the few additions of the source write their wrap-around out where they stand.
use pressly_goose_patches.Base.{
  ℕ, suc, ◌+◌, ◌≤◌, ◌<◌, ◌≡◌, ◌↔◌, Bool, true, false, arith, ltb, leb, ◌==◌, Option, none, some,
}

-- `negsuc n` is -(n + 1).
pub data ℤ : Type 0 where
  pos : ℕ → ℤ
  negsuc : ℕ → ℤ

abbrev pub pos_part : ℤ → ℕ
pos_part (pos n) = n
pos_part (negsuc n) = 0

abbrev pub neg_part : ℤ → ℕ
neg_part (pos n) = 0
neg_part (negsuc n) = suc n

infix 50 ◌≤ℤ◌ ◌<ℤ◌
abbrev pub ◌≤ℤ◌ : ℤ → ℤ → Type 0
a ≤ℤ b = pos_part a + neg_part b ≤ pos_part b + neg_part a

abbrev pub ◌<ℤ◌ : ℤ → ℤ → Type 0
a <ℤ b = pos_part a + neg_part b < pos_part b + neg_part a

unfoldable pub ltb_ℤ : ℤ → ℤ → Bool
ltb_ℤ a b = ltb (pos_part a + neg_part b) (pos_part b + neg_part a)

unfoldable pub leb_ℤ : ℤ → ℤ → Bool
leb_ℤ a b = leb (pos_part a + neg_part b) (pos_part b + neg_part a)

unfoldable pub eqb_ℤ : ℤ → ℤ → Bool
eqb_ℤ a b = (pos_part a + neg_part b) == (pos_part b + neg_part a)

module _ (a b : ℤ) where
  pub eq_of_parts : pos_part a + neg_part b ≡ pos_part b + neg_part a → a ≡ b
  eq_of_parts h = ground arith

  pub ltb_ℤ→lt : ltb_ℤ a b ≡ true → a <ℤ b
  unfolding ltb_ℤ
  ltb_ℤ→lt h = ground arith

  pub ltb_ℤ→le : ltb_ℤ a b ≡ false → b ≤ℤ a
  unfolding ltb_ℤ
  ltb_ℤ→le h = ground arith

  pub lt→ltb_ℤ : a <ℤ b → ltb_ℤ a b ≡ true
  unfolding ltb_ℤ
  lt→ltb_ℤ h = ground arith

  pub le→ltb_ℤ : b ≤ℤ a → ltb_ℤ a b ≡ false
  unfolding ltb_ℤ
  le→ltb_ℤ h = ground arith

  pub leb_ℤ→le : leb_ℤ a b ≡ true → a ≤ℤ b
  unfolding leb_ℤ
  leb_ℤ→le h = ground arith

  pub leb_ℤ→lt : leb_ℤ a b ≡ false → b <ℤ a
  unfolding leb_ℤ
  leb_ℤ→lt h = ground arith

  pub le→leb_ℤ : a ≤ℤ b → leb_ℤ a b ≡ true
  unfolding leb_ℤ
  le→leb_ℤ h = ground arith

  pub lt→leb_ℤ : b <ℤ a → leb_ℤ a b ≡ false
  unfolding leb_ℤ
  lt→leb_ℤ h = ground arith

  pub eqb_ℤ→eq : eqb_ℤ a b ≡ true → a ≡ b
  unfolding eqb_ℤ
  eqb_ℤ→eq h = ground arith

pub eqb_ℤ_iff : (a b : ℤ) → (eqb_ℤ a b ≡ true) ↔ (a ≡ b)
unfolding eqb_ℤ
eqb_ℤ_iff a b = ground arith

pub eqb_ℤ_refl : (a : ℤ) → eqb_ℤ a a ≡ true
unfolding eqb_ℤ
eqb_ℤ_refl a = ground arith

pub eqb_ℤ_comm : (a b : ℤ) → eqb_ℤ a b ≡ eqb_ℤ b a
unfolding eqb_ℤ
eqb_ℤ_comm a b = ground arith

-- What `omega` and `ground` read of one pair of integers.
pub ruleset int_tests =
    (arith, ltb_ℤ→lt, ltb_ℤ→le, lt→ltb_ℤ, le→ltb_ℤ, leb_ℤ→le, leb_ℤ→lt, le→leb_ℤ, lt→leb_ℤ)
