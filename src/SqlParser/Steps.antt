-- ===== src/SqlParser/Steps.antt =====
-- What one line does to the machine of `ParseSQLMigration`: inversion lemmas, with the parts shut.
use pressly_goose_patches.Base.{
  Bool, true, ◌≡◌, refl, ◌⊎◌, inl, inr, not, ◌&&◌, [], ◌∷◌, ◌++◌, Option, none, some, arith,
  if◌then◌else◌, is_nil, All, All-append, Bool-cases, Option-cases,
}
use pressly_goose_patches.Text.{Str, has_prefix, trim_space}
use pressly_goose_patches.SqlParser.{
  Direction, to_bool, ParserState, start, goose_up, goose_statement_begin_up,
  goose_statement_end_up, goose_down, goose_statement_begin_down, goose_statement_end_down,
  Annotation, ParseError, Result, ok, err, ◌>>=◌, extract_annotation,
}
use pressly_goose_patches.SqlParser.Machine.{
  Machine, is_start, is_annotation_line, is_comment_line, in_direction, write_line, body, annotate,
  step,
}

pub bind-eq-ok :
    {A B : Type 0} (r : Result A) (f : A → Result B) {b : B}
    → (r >>= f) ≡ ok b
    → (a : A) × (r ≡ ok a) × (f a ≡ ok b)
bind-eq-ok (ok a) f h = (a, refl, h)
bind-eq-ok (err e) f h = cc

pub Result-cases :
    {A : Type 0} (r : Result A) → ((a : A) × (r ≡ ok a)) ⊎ ((e : ParseError) × (r ≡ err e))
Result-cases (ok a) = inl (a, refl)
Result-cases (err e) = inr (e, refl)

-- The annotation that a line carries.
annotation_of : Result Annotation → Option Annotation
annotation_of (ok a) = some a
annotation_of (err e) = none

unfoldable pub line_annotation : Str → Option Annotation
unfolding annotation_of
line_annotation line =
    if is_annotation_line line then annotation_of (extract_annotation line) else none

-- The state with the end of a block counted as what follows it.
unfoldable pub settled : ParserState → ParserState
settled goose_statement_end_up = goose_up
settled goose_statement_end_down = goose_down
settled s = s

pub line_annotation_blank :
    (line : Str) → is_nil (trim_space line) ≡ true → line_annotation line ≡ none
unfolding line_annotation is_annotation_line has_prefix
line_annotation_blank line h = ground arith

-- The states of the section that belongs to the other direction, and the start.
unfoldable pub is_opposite : Direction → ParserState → Bool
unfolding to_bool
is_opposite dir start = true
is_opposite dir goose_up = not (to_bool dir)
is_opposite dir goose_statement_begin_up = not (to_bool dir)
is_opposite dir goose_statement_end_up = not (to_bool dir)
is_opposite dir goose_down = to_bool dir
is_opposite dir goose_statement_begin_down = to_bool dir
is_opposite dir goose_statement_end_down = to_bool dir

module _ (expand : Str → Option Str) (dir : Direction) where
  -- The ways in which a line is accepted.
  pub data Accepted (m : Machine) (line : Str) (m' : Machine) : Type 0 where
    skipped : m' ≡ m → line_annotation line ≡ none → Accepted m line m'
    text : body expand dir m line ≡ ok m' → line_annotation line ≡ none → Accepted m line m'
    annotated :
        (a : Annotation)
        → annotate expand dir m line a ≡ ok m'
        → line_annotation line ≡ some a
        → Accepted m line m'

  pub step-Accepted :
      (m : Machine) (line : Str) {m' : Machine}
      → step expand dir m line ≡ ok m'
      → Accepted m line m'
  unfolding step line_annotation
  step-Accepted m line {m'} h = elim (Bool-cases (is_start m.state && is_nil (trim_space line))) [
    | inl blank ↦ skipped (ground arith) (line_annotation_blank line (ground arith))
    | inr some_text ↦ elim (Bool-cases (is_annotation_line line)) [
      | inl marked ↦
          let (a, e, f) =
            bind-eq-ok (extract_annotation line) (annotate expand dir m line) (ground arith) in
          annotated a f (rw (marked, e))
      | inr plain ↦ text (ground arith) (rw plain)
    ]
  ]

  -- The text of a line is ignored, or it is put into the buffer and weighed by its direction.
  abbrev pub Weighed : Machine → Machine → Type 0
  Weighed m m' = (b : Str) × (l : Str) × (in_direction dir (record m { buf = b }) l m.state ≡ ok m')

  write_line-Weighed :
      (m : Machine) (line : Str) (s : ParserState) {m' : Machine}
      → write_line expand dir m line s ≡ ok m'
      → Weighed m m'
  unfolding write_line
  write_line-Weighed m line goose_statement_end_up h = (m.buf, line, h)
  write_line-Weighed m line goose_statement_end_down h = (m.buf, line, h)
  write_line-Weighed m line _ h = elim (Bool-cases m.use_envsub) [
    | inl on ↦ elim (Option-cases (expand line)) [
      | inl unset ↦ absurd (ground arith)
      | inr (l, e) ↦ (m.buf ++ (l ++ b'\n' ∷ []), l, ground arith)
    ]
    | inr off ↦ (m.buf ++ (line ++ b'\n' ∷ []), line, ground arith)
  ]

  pub body-Weighed :
      (m : Machine) (line : Str) {m' : Machine}
      → body expand dir m line ≡ ok m'
      → (m' ≡ m) ⊎ Weighed m m'
  unfolding body
  body-Weighed m line h = elim (Bool-cases (is_nil m.buf && is_comment_line line)) [
    | inl ignored ↦ inl (ground arith)
    | inr kept ↦ inr (write_line-Weighed m line m.state (ground arith))
  ]

  -- What the text of a line leaves alone.
  pub record TextEffect (m m' : Machine) : Type 0 where
    pub use_tx : m'.use_tx ≡ m.use_tx
    pub use_envsub : m'.use_envsub ≡ m.use_envsub
    pub state : settled m'.state ≡ settled m.state

  in_direction-TextEffect :
      (m : Machine) (b line : Str) (s : ParserState) {m' : Machine}
      → m.state ≡ s
      → in_direction dir (record m { buf = b }) line s ≡ ok m'
      → TextEffect m m'
  unfolding in_direction settled
  in_direction-TextEffect m b line goose_up e h = ground arith
  in_direction-TextEffect m b line _ e h = ground arith

  pub body-TextEffect :
      (m : Machine) (line : Str) {m' : Machine} → body expand dir m line ≡ ok m' → TextEffect m m'
  body-TextEffect m line h = elim (body-Weighed m line h) [
    | inl same ↦ ground arith
    | inr (b, l, k) ↦ in_direction-TextEffect m b l m.state refl k
  ]

  -- The text of the other direction leaves no trace.
  abbrev pub Dropped : Machine → Machine → Type 0
  Dropped m m' = (m'.stmts ≡ m.stmts) × (m.buf ≡ [] → m'.buf ≡ []) × (m'.state ≡ m.state)

  in_direction-Dropped :
      (m : Machine) (b line : Str) (s : ParserState) {m' : Machine}
      → m.state ≡ s
      → is_opposite dir s ≡ true
      → in_direction dir (record m { buf = b }) line s ≡ ok m'
      → Dropped m m'
  unfolding in_direction is_opposite
  in_direction-Dropped m b line goose_up e o h = (ground arith, λ _. ground arith, ground arith)
  in_direction-Dropped m b line _ e o h = (ground arith, λ _. ground arith, ground arith)

  pub body-Dropped :
      (m : Machine) (line : Str) {m' : Machine}
      → is_opposite dir m.state ≡ true
      → body expand dir m line ≡ ok m'
      → Dropped m m'
  body-Dropped m line o h = elim (body-Weighed m line h) [
    | inl same ↦ rw same (refl, λ b. b, refl)
    | inr (b, l, k) ↦ in_direction-Dropped m b l m.state refl o k
  ]

  -- What is stored is stored for good, and trimmed.
  pub in_direction-stmts :
      (P : Str → Type 0) (clean : (b : Str) → P (trim_space b)) (m : Machine) (line : Str)
      (s : ParserState) {m' : Machine}
      → in_direction dir m line s ≡ ok m'
      → All P m.stmts
      → All P m'.stmts
  unfolding in_direction
  in_direction-stmts P clean m line goose_up h a =
      ground (arith, All-append P m.stmts (trim_space m.buf ∷ []) a (clean m.buf, tt))
  in_direction-stmts P clean m line _ h a =
      ground (arith, All-append P m.stmts (trim_space m.buf ∷ []) a (clean m.buf, tt))
