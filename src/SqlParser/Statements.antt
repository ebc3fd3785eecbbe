-- ===== src/SqlParser/Statements.antt =====
-- The statements that `ParseSQLMigration` of internal/sqlparser/parser.go stores.
use pressly_goose_patches.Base.{
  Bool, ◌≡◌, inl, inr, List, [], ◌∷◌, Option, arith, if◌then◌else◌, All,
}
use pressly_goose_patches.Text.{Str, trim_space}
use pressly_goose_patches.SqlParser.{
  Direction, Annotation, annotation_statement_end, ok, scan_failed, err,
}
use pressly_goose_patches.SqlParser.Machine.{
  Machine, initial, on_up, on_down, on_statement_begin, on_statement_end, finish, body, annotate,
  step, run, parse_lines,
}
use pressly_goose_patches.SqlParser.Steps.{
  bind-eq-ok, skipped, text, annotated, step-Accepted, body-Weighed, in_direction-stmts,
}
use pressly_goose_patches.Text.Trim.{trim_space_idem}
use pressly_goose_patches.SqlParser.Directions.{finish-eq-ok}

module _ (expand : Str → Option Str) (dir : Direction) (P : Str → Type 0)
    (clean : (b : Str) → P (trim_space b)) where
  body-All :
      (m : Machine) (line : Str) {m' : Machine}
      → body expand dir m line ≡ ok m'
      → All P m.stmts
      → All P m'.stmts
  body-All m line h a = elim (body-Weighed expand dir m line h) [
    | inl same ↦ rw same a
    | inr (b, l, k) ↦ in_direction-stmts expand dir P clean (record m { buf = b }) l m.state k a
  ]

  annotate-All :
      (m : Machine) (line : Str) (a : Annotation) {m' : Machine}
      → annotate expand dir m line a ≡ ok m'
      → All P m.stmts
      → All P m'.stmts
  unfolding annotate on_up on_down on_statement_begin
  annotate-All m line annotation_statement_end h all =
      let (n, e, f) = bind-eq-ok (on_statement_end m m.state) (λ n. body expand dir n line) h in
      body-All n line f (unfold on_statement_end in ground arith)
  annotate-All m line _ h all = ground arith

  step-All :
      (m : Machine) (line : Str) {m' : Machine}
      → step expand dir m line ≡ ok m'
      → All P m.stmts
      → All P m'.stmts
  step-All m line h all = elim (step-Accepted expand dir m line h) [
    | skipped same plain ↦ rw same all
    | text t plain ↦ body-All m line t all
    | annotated a t marked ↦ annotate-All m line a t all
  ]

  run-All :
      (m : Machine) (lines : List Str) {m' : Machine}
      → run expand dir m lines ≡ ok m'
      → All P m.stmts
      → All P m'.stmts
  unfolding run
  run-All m [] h all = ground arith
  run-All m (line ∷ lines) h all =
      let (n, e, f) = bind-eq-ok (step expand dir m line) (λ n. run expand dir n lines) h in
      run-All n lines f (step-All m line e all)

  parse-All :
      (lines : List Str) (failed use_tx : Bool) (stmts : List Str)
      → parse_lines expand dir lines failed ≡ ok (stmts, use_tx)
      → All P stmts
  unfolding parse_lines
  parse-All lines failed use_tx stmts h =
      let (m, e, f) =
        bind-eq-ok (run expand dir initial lines)
          (λ m. if failed then err scan_failed else finish dir m m.state) h in
      ground (arith, finish-eq-ok dir m m.state {r = (stmts, use_tx)}, run-All initial lines e tt)

-- Every statement of a file that parses is trimmed: it neither begins nor ends with white space.
pub parse_trimmed :
    (expand : Str → Option Str) (dir : Direction) (lines : List Str) (failed use_tx : Bool)
    (stmts : List Str)
    → parse_lines expand dir lines failed ≡ ok (stmts, use_tx)
    → All (λ s. trim_space s ≡ s) stmts
parse_trimmed expand dir = parse-All expand dir (λ s. trim_space s ≡ s) trim_space_idem
