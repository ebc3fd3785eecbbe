-- ===== src/SqlParser/Counts.antt =====
-- How often each annotation stands in a file that parses (internal/sqlparser/parser.go).
use pressly_goose_patches.Base.{
  ℕ, ◌+◌, ◌≤◌, Bool, true, false, ◌≡◌, inl, inr, List, [], ◌∷◌, Option, none, some, arith,
  if◌then◌else◌, Option-cases,
}
use pressly_goose_patches.Text.{Str}
use pressly_goose_patches.SqlParser.{
  Direction, ParserState, start, goose_up, goose_statement_begin_up, goose_down,
  goose_statement_begin_down, goose_statement_end_down, Annotation, annotation_up, annotation_down,
  annotation_statement_begin, annotation_statement_end, annotation_no_transaction,
  annotation_envsub_on, annotation_envsub_off, ok,
}
use pressly_goose_patches.SqlParser.Machine.{parse_lines}
use pressly_goose_patches.SqlParser.Steps.{line_annotation}
use pressly_goose_patches.SqlParser.Diagram.{follow, walk, parse_walk}

unfoldable pub same : Annotation → Annotation → Bool
same annotation_up annotation_up = true
same annotation_down annotation_down = true
same annotation_statement_begin annotation_statement_begin = true
same annotation_statement_end annotation_statement_end = true
same annotation_no_transaction annotation_no_transaction = true
same annotation_envsub_on annotation_envsub_on = true
same annotation_envsub_off annotation_envsub_off = true
same _ _ = false

unfoldable pub marks : Annotation → Option Annotation → ℕ
unfolding same
marks a none = 0
marks a (some b) = if same a b then 1 else 0

-- The number of lines that carry an annotation.
unfoldable pub count_annotation : Annotation → List Str → ℕ
unfolding marks
count_annotation a [] = 0
count_annotation a (line ∷ lines) = marks a (line_annotation line) + count_annotation a lines

ups : ParserState → ℕ
ups start = 0
ups _ = 1

downs : ParserState → ℕ
downs goose_down = 1
downs goose_statement_begin_down = 1
downs goose_statement_end_down = 1
downs _ = 0

blocks : ParserState → ℕ
blocks goose_statement_begin_up = 1
blocks goose_statement_begin_down = 1
blocks _ = 0

-- What the state tells of the annotations so far.
abbrev Tally : ParserState → ParserState → ℕ → ℕ → ℕ → ℕ → Type 0
Tally s s' up down begin end' =
    (ups s' ≡ ups s + up) × (downs s' ≡ downs s + down) × (blocks s' + end' ≡ blocks s + begin)

follow-Tally :
    (o : Option Annotation) (s s' : ParserState)
    → follow o s ≡ some s'
    → Tally s s'
        (marks annotation_up o)
        (marks annotation_down o)
        (marks annotation_statement_begin o)
        (marks annotation_statement_end o)
unfolding follow marks ups downs blocks
follow-Tally none s s' h = ground arith
follow-Tally (some annotation_up) s s' h = ground arith
follow-Tally (some _) s s' h = ground arith

walk-Tally :
    (lines : List Str) (s s' : ParserState)
    → walk s lines ≡ some s'
    → Tally s s'
        (count_annotation annotation_up lines)
        (count_annotation annotation_down lines)
        (count_annotation annotation_statement_begin lines)
        (count_annotation annotation_statement_end lines)
unfolding walk count_annotation
walk-Tally [] s s' h = ground arith
walk-Tally (line ∷ lines) s s' h = elim (Option-cases (follow (line_annotation line) s)) [
  | inl stuck ↦ absurd (ground arith)
  | inr (t, e) ↦
      let one = follow-Tally (line_annotation line) s t e in
      let rest = walk-Tally lines t s' (rw (e, walk) at h) in omega arith
]

-- A file that parses has exactly one `Up` annotation, at most one `Down` annotation, and as many
-- `StatementBegin` as `StatementEnd` annotations.
pub parse_annotation_counts :
    (expand : Str → Option Str) (dir : Direction) (lines : List Str) (failed : Bool)
    {r : List Str × Bool}
    → parse_lines expand dir lines failed ≡ ok r
    → (count_annotation annotation_up lines ≡ 1)
      × (count_annotation annotation_down lines ≤ 1)
      × (count_annotation annotation_statement_begin lines
          ≡ count_annotation annotation_statement_end lines)
parse_annotation_counts expand dir lines failed h = elim (parse_walk expand dir lines failed h) [
  | inl up ↦ let t = walk-Tally lines start goose_up up in unfold ups downs blocks in omega arith
  | inr down ↦
      let t = walk-Tally lines start goose_down down in unfold ups downs blocks in omega arith
]
