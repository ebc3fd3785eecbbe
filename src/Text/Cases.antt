-- ===== src/Text/Cases.antt =====
-- helpers.go: the camel case and the snake case of a name, by one state machine. `unicode.IsLetter`,
-- `unicode.IsNumber`, `unicode.ToUpper` and `unicode.ToLower` are parameters.
pub mod Shape
mod Tests
use pressly_goose_patches.Base.{
  ℕ, Bool, true, false, ◌||◌, List, [], ◌∷◌, ◌==◌, if◌then◌else◌, reverse,
}
use pressly_goose_patches.Text.{Str}

-- `camelSnakeStateMachine`
pub data Phase : Type 0 where
  idle first_alpha_num alpha_num delimiter : Phase

unfoldable pub next : Bool → Phase → Phase
next true idle = first_alpha_num
next false idle = idle
next true first_alpha_num = alpha_num
next false first_alpha_num = delimiter
next true alpha_num = alpha_num
next false alpha_num = delimiter
next true delimiter = first_alpha_num
next false delimiter = idle

abbrev pub underscore : ℕ
underscore = 95

-- One trailing underscore less.
unfoldable pub trim_underscore : Str → Str
trim_underscore [] = []
trim_underscore (c ∷ []) = if c == underscore then [] else c ∷ []
trim_underscore (c ∷ d ∷ s) = c ∷ trim_underscore (d ∷ s)

pub record Unicode : Type 0 where
  pub is_letter : ℕ → Bool
  pub is_number : ℕ → Bool
  pub to_upper : ℕ → ℕ
  pub to_lower : ℕ → ℕ

module _ (u : Unicode) where
  unfoldable pub is_alpha_num : ℕ → Bool
  is_alpha_num c = u.is_letter c || u.is_number c

  unfoldable pub camel_char : Phase → ℕ → Str → Str
  camel_char idle c s = s
  camel_char first_alpha_num c s = u.to_upper c ∷ s
  camel_char alpha_num c s = u.to_lower c ∷ s
  camel_char delimiter c s = s

  unfoldable pub camel_from : Phase → Str → Str
  unfolding camel_char next is_alpha_num
  camel_from p [] = []
  camel_from p (c ∷ s) = let q = next (is_alpha_num c) p in camel_char q c (camel_from q s)

  -- `camelCase`
  unfoldable pub camel_case : Str → Str
  unfolding camel_from
  camel_case s = camel_from idle s

  unfoldable pub snake_char : Phase → ℕ → Str → Str
  snake_char idle c s = s
  snake_char first_alpha_num c s = u.to_lower c ∷ s
  snake_char alpha_num c s = u.to_lower c ∷ s
  snake_char delimiter c s = underscore ∷ s

  -- The text written, and the state at its end.
  unfoldable pub snake_from : Phase → Str → Str
  unfolding snake_char next is_alpha_num
  snake_from p [] = []
  snake_from p (c ∷ s) = let q = next (is_alpha_num c) p in snake_char q c (snake_from q s)

  unfoldable pub end_of : Phase → Str → Phase
  unfolding next is_alpha_num
  end_of p [] = p
  end_of p (c ∷ s) = end_of (next (is_alpha_num c) p) s

  unfoldable pub trimmed : Phase → Str → Str
  unfolding trim_underscore
  trimmed idle s = trim_underscore s
  trimmed first_alpha_num s = s
  trimmed alpha_num s = s
  trimmed delimiter s = s

  -- `snakeCase`
  unfoldable pub snake_case : Str → Str
  unfolding snake_from end_of trimmed
  snake_case s = trimmed (end_of idle s) (snake_from idle s)
