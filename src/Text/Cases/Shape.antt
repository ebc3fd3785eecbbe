-- ===== src/Text/Cases/Shape.antt =====
-- The shape of the names that helpers.go makes.
use pressly_goose_patches.Base.{
  ◌≡◌, refl, ◌∙◌, ℕ, suc, Bool, true, false, not, ◌&&◌, [], ◌∷◌, ◌==◌, if◌then◌else◌, arith, length,
  Bool-cases, inl, inr,
}
use pressly_goose_patches.Text.{Str}
use pressly_goose_patches.Text.Cases.{
  Phase, idle, first_alpha_num, alpha_num, delimiter, next, underscore, trim_underscore, Unicode,
  is_alpha_num, camel_char, camel_from, camel_case, snake_char, snake_from, end_of, trimmed,
  snake_case,
}

-- Whether no underscore comes first, where the flag is set, or after another underscore.
unfoldable pub is_spaced : Bool → Str → Bool
is_spaced b [] = true
is_spaced b (c ∷ s) = not (b && c == underscore) && is_spaced (c == underscore) s

-- How many characters are not underscores.
unfoldable pub count_plain : Str → ℕ
count_plain [] = 0
count_plain (c ∷ s) = let n = count_plain s in if c == underscore then n else suc n

unfoldable pub count_alpha_num : Unicode → Str → ℕ
count_alpha_num u [] = 0
count_alpha_num u (c ∷ s) = let n = count_alpha_num u s in if is_alpha_num u c then suc n else n

-- The lower case of a letter or number is no underscore.
abbrev pub KeepsLetters : Unicode → Type 0
KeepsLetters u = (c : ℕ) → is_alpha_num u c ≡ true → (u.to_lower c == underscore) ≡ false

trim-spaced : (b : Bool) (s : Str) → is_spaced b s ≡ true → is_spaced b (trim_underscore s) ≡ true
unfolding trim_underscore is_spaced
trim-spaced b [] h = refl
trim-spaced b (c ∷ []) h = ground arith
trim-spaced b (c ∷ d ∷ s) h = ground (arith, trim-spaced (c == underscore) (d ∷ s))

trim-plain : (s : Str) → count_plain (trim_underscore s) ≡ count_plain s
unfolding trim_underscore count_plain
trim-plain [] = refl
trim-plain (c ∷ []) = ground arith
trim-plain (c ∷ d ∷ s) = ground (arith, trim-plain (d ∷ s))

module _ (u : Unicode) where
  -- An underscore may come next after a letter or a number only.
  after_underscore : Phase → Bool
  after_underscore idle = true
  after_underscore first_alpha_num = false
  after_underscore alpha_num = false
  after_underscore delimiter = true

  snake_from-spaced :
      (keeps : KeepsLetters u) (p : Phase) (s : Str)
      → is_spaced (after_underscore p) (snake_from u p s) ≡ true
  unfolding snake_from is_spaced after_underscore next snake_char
  snake_from-spaced keeps p [] = refl
  snake_from-spaced keeps idle (c ∷ s) =
      let a = snake_from-spaced keeps first_alpha_num s in
      let b = snake_from-spaced keeps idle s in
      elim (Bool-cases (is_alpha_num u c)) [
        | inl e ↦ let k = keeps c e in rw e (ground arith)
        | inr e ↦ rw e b
      ]
  snake_from-spaced keeps first_alpha_num (c ∷ s) =
      let a = snake_from-spaced keeps alpha_num s in
      let b = snake_from-spaced keeps delimiter s in
      elim (Bool-cases (is_alpha_num u c)) [
        | inl e ↦ let k = keeps c e in rw e (ground arith)
        | inr e ↦ rw e b
      ]
  snake_from-spaced keeps alpha_num (c ∷ s) =
      let a = snake_from-spaced keeps alpha_num s in
      let b = snake_from-spaced keeps delimiter s in
      elim (Bool-cases (is_alpha_num u c)) [
        | inl e ↦ let k = keeps c e in rw e (ground arith)
        | inr e ↦ rw e b
      ]
  snake_from-spaced keeps delimiter (c ∷ s) =
      let a = snake_from-spaced keeps first_alpha_num s in
      let b = snake_from-spaced keeps idle s in
      elim (Bool-cases (is_alpha_num u c)) [
        | inl e ↦ let k = keeps c e in rw e (ground arith)
        | inr e ↦ rw e b
      ]

  trimmed-spaced :
      (p : Phase) (s : Str) → is_spaced true s ≡ true → is_spaced true (trimmed u p s) ≡ true
  unfolding trimmed
  trimmed-spaced idle s h = trim-spaced true s h
  trimmed-spaced first_alpha_num s h = h
  trimmed-spaced alpha_num s h = h
  trimmed-spaced delimiter s h = h

  trimmed-plain : (p : Phase) (s : Str) → count_plain (trimmed u p s) ≡ count_plain s
  unfolding trimmed
  trimmed-plain idle s = trim-plain s
  trimmed-plain first_alpha_num s = refl
  trimmed-plain alpha_num s = refl
  trimmed-plain delimiter s = refl

  -- One character, in any state: whether it is written and whether an underscore is.
  snake_from-plain :
      (keeps : KeepsLetters u) (p : Phase) (s : Str)
      → count_plain (snake_from u p s) ≡ count_alpha_num u s
  unfolding snake_from count_plain count_alpha_num next snake_char
  snake_from-plain keeps p [] = refl
  snake_from-plain keeps idle (c ∷ s) =
      ground
        (arith, snake_from-plain keeps first_alpha_num s, snake_from-plain keeps idle s, keeps c)
  snake_from-plain keeps first_alpha_num (c ∷ s) =
      ground
        (arith, snake_from-plain keeps alpha_num s, snake_from-plain keeps delimiter s, keeps c)
  snake_from-plain keeps alpha_num (c ∷ s) =
      ground
        (arith, snake_from-plain keeps alpha_num s, snake_from-plain keeps delimiter s, keeps c)
  snake_from-plain keeps delimiter (c ∷ s) =
      ground
        (arith, snake_from-plain keeps first_alpha_num s, snake_from-plain keeps idle s, keeps c)

  camel_from-length : (p : Phase) (s : Str) → length (camel_from u p s) ≡ count_alpha_num u s
  unfolding camel_from count_alpha_num next camel_char
  camel_from-length p [] = refl
  camel_from-length idle (c ∷ s) =
      ground (arith, camel_from-length first_alpha_num s, camel_from-length idle s)
  camel_from-length first_alpha_num (c ∷ s) =
      ground (arith, camel_from-length alpha_num s, camel_from-length delimiter s)
  camel_from-length alpha_num (c ∷ s) =
      ground (arith, camel_from-length alpha_num s, camel_from-length delimiter s)
  camel_from-length delimiter (c ∷ s) =
      ground (arith, camel_from-length first_alpha_num s, camel_from-length idle s)

-- Where the lower case of a letter or number is no underscore: a snake case name starts with no
-- underscore and has no two in a row, and, underscores aside, it and the camel case name have as many
-- characters as the text has letters and numbers.
pub case_shapes :
    (u : Unicode) (s : Str)
    → KeepsLetters u
    → (is_spaced true (snake_case u s) ≡ true)
      × (count_plain (snake_case u s) ≡ count_alpha_num u s)
      × (length (camel_case u s) ≡ count_alpha_num u s)
unfolding snake_case camel_case after_underscore
case_shapes u s keeps = (
  trimmed-spaced u (end_of u idle s) (snake_from u idle s) (snake_from-spaced u keeps idle s),
  trimmed-plain u (end_of u idle s) (snake_from u idle s) ∙ snake_from-plain u keeps idle s,
  camel_from-length u idle s,
)
