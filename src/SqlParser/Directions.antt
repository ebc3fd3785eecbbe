-- ===== src/SqlParser/Directions.antt =====
-- The transaction mode of a migration file, in either direction (internal/sqlparser/parser.go, parse.go).
use pressly_goose_patches.Base.{
  Bool, true, false, ◌≡◌, sym, ◌∙◌, not, ◌&&◌, ◌||◌, List, [], ◌∷◌, Option, some, arith,
  if◌then◌else◌, is_nil,
}
use pressly_goose_patches.Text.{Str, trim_space}
use pressly_goose_patches.SqlParser.{
  Direction, direction_up, direction_down, ParserState, goose_up, Annotation,
  annotation_statement_end, annotation_no_transaction, ok, scan_failed, err,
}
use pressly_goose_patches.SqlParser.Machine.{
  Machine, initial, on_up, on_down, on_statement_begin, on_statement_end, finish, body, annotate,
  step, run, parse_lines,
}
use pressly_goose_patches.SqlParser.Steps.{
  bind-eq-ok, line_annotation, skipped, text, annotated, step-Accepted, body-TextEffect,
}

-- Exactly the line "-- +goose NO TRANSACTION", in any spelling that is accepted.
disables_tx : Option Annotation → Bool
disables_tx (some annotation_no_transaction) = true
disables_tx _ = false

unfoldable pub any_no_transaction : List Str → Bool
unfolding disables_tx
any_no_transaction [] = false
any_no_transaction (line ∷ lines) = disables_tx (line_annotation line) || any_no_transaction lines

pub finish-eq-ok :
    (dir : Direction) (m : Machine) (s : ParserState) {r : List Str × Bool}
    → finish dir m s ≡ ok r
    → (r ≡ (m.stmts, m.use_tx)) × (is_nil (trim_space m.buf) ≡ true)
unfolding finish
finish-eq-ok dir m goose_up h = ground arith
finish-eq-ok dir m _ h = ground arith

module _ (expand : Str → Option Str) (dir : Direction) where
  annotate-use_tx :
      (m : Machine) (line : Str) (a : Annotation) {m' : Machine}
      → annotate expand dir m line a ≡ ok m'
      → m'.use_tx ≡ (m.use_tx && not (disables_tx (some a)))
  unfolding annotate on_up on_down on_statement_begin disables_tx
  annotate-use_tx m line annotation_statement_end h =
      let (n, e, f) = bind-eq-ok (on_statement_end m m.state) (λ n. body expand dir n line) h in
      let rest = (body-TextEffect expand dir n line f).use_tx in
      unfold on_statement_end in ground arith
  annotate-use_tx m line _ h = ground arith

  step-use_tx :
      (m : Machine) (line : Str) {m' : Machine}
      → step expand dir m line ≡ ok m'
      → m'.use_tx ≡ (m.use_tx && not (disables_tx (line_annotation line)))
  step-use_tx m line h = elim (step-Accepted expand dir m line h) [
    | skipped same plain ↦ rw plain (unfold disables_tx in ground arith)
    | text t plain ↦
        let same = (body-TextEffect expand dir m line t).use_tx in
        rw plain (unfold disables_tx in ground arith)
    | annotated a t marked ↦ rw marked (annotate-use_tx m line a t)
  ]

  run-use_tx :
      (m : Machine) (lines : List Str) {m' : Machine}
      → run expand dir m lines ≡ ok m'
      → m'.use_tx ≡ (m.use_tx && not (any_no_transaction lines))
  unfolding run any_no_transaction
  run-use_tx m [] h = ground arith
  run-use_tx m (line ∷ lines) h =
      let (n, e, f) = bind-eq-ok (step expand dir m line) (λ n. run expand dir n lines) h in
      ground (arith, step-use_tx m line e, run-use_tx n lines f)

  -- A file that parses uses a transaction unless one of its lines, in either section, is a
  -- `NO TRANSACTION` annotation.
  pub parse_use_tx :
      (lines : List Str) (failed : Bool) (stmts : List Str) (use_tx : Bool)
      → parse_lines expand dir lines failed ≡ ok (stmts, use_tx)
      → use_tx ≡ not (any_no_transaction lines)
  unfolding parse_lines
  parse_use_tx lines failed stmts use_tx h =
      let (m, e, f) =
        bind-eq-ok (run expand dir initial lines)
          (λ m. if failed then err scan_failed else finish dir m m.state) h in
      ground (arith, finish-eq-ok dir m m.state, run-use_tx initial lines e)

-- The two passes that `ParseAllFromFS` makes over one file agree on the transaction mode, whenever
-- both succeed.
pub parse_directions_agree :
    (expand : Str → Option Str) (lines : List Str) (failed : Bool) (ups downs : List Str)
    (up_tx down_tx : Bool)
    → parse_lines expand direction_up lines failed ≡ ok (ups, up_tx)
    → parse_lines expand direction_down lines failed ≡ ok (downs, down_tx)
    → up_tx ≡ down_tx
parse_directions_agree expand lines failed ups downs up_tx down_tx h k =
    parse_use_tx expand direction_up lines failed ups up_tx h
    ∙ sym (parse_use_tx expand direction_down lines failed downs down_tx k)
