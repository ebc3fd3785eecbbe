-- ===== src/SqlParser/Diagram.antt =====
-- The order of annotations that `ParseSQLMigration` of internal/sqlparser/parser.go accepts.
use pressly_goose_patches.Base.{
  Bool, ◌≡◌, sym, ap, ◌∙◌, ◌⊎◌, List, [], ◌∷◌, Option, none, some, arith, if◌then◌else◌,
}
use pressly_goose_patches.Text.{Str}
use pressly_goose_patches.SqlParser.{
  Direction, ParserState, start, goose_up, goose_statement_begin_up, goose_down,
  goose_statement_begin_down, Annotation, annotation_up, annotation_down,
  annotation_statement_begin, annotation_statement_end, annotation_no_transaction,
  annotation_envsub_on, annotation_envsub_off, ok, scan_failed, err,
}
use pressly_goose_patches.SqlParser.Machine.{
  Machine, initial, on_up, on_down, on_statement_begin, on_statement_end, finish, body, annotate,
  step, run, parse_lines,
}
use pressly_goose_patches.SqlParser.Steps.{
  bind-eq-ok, line_annotation, settled, skipped, text, annotated, step-Accepted, body-TextEffect,
}

-- The diagram of the annotations: where each may stand, and what state follows.
unfoldable pub diagram : Annotation → ParserState → Option ParserState
diagram annotation_up start = some goose_up
diagram annotation_down goose_up = some goose_down
diagram annotation_statement_begin goose_up = some goose_statement_begin_up
diagram annotation_statement_begin goose_down = some goose_statement_begin_down
diagram annotation_statement_end goose_statement_begin_up = some goose_up
diagram annotation_statement_end goose_statement_begin_down = some goose_down
diagram annotation_no_transaction s = some s
diagram annotation_envsub_on s = some s
diagram annotation_envsub_off s = some s
diagram _ s = none

unfoldable pub follow : Option Annotation → ParserState → Option ParserState
unfolding diagram
follow none s = some s
follow (some a) s = diagram a s

-- The walk of a file's annotations through the diagram.
unfoldable pub walk : ParserState → List Str → Option ParserState
unfolding follow
walk s [] = some s
walk s (line ∷ lines) = elim (follow (line_annotation line) s) [
  | none ↦ none
  | some s' ↦ walk s' lines
]

module _ (expand : Str → Option Str) (dir : Direction) where
  on_up-diagram :
      (m : Machine) (s : ParserState) {m' : Machine}
      → on_up m s ≡ ok m'
      → diagram annotation_up (settled s) ≡ some (settled m'.state)
  unfolding on_up diagram settled
  on_up-diagram m start h = ground arith
  on_up-diagram m _ h = ground arith

  on_down-diagram :
      (m : Machine) (s : ParserState) {m' : Machine}
      → on_down dir m s ≡ ok m'
      → diagram annotation_down (settled s) ≡ some (settled m'.state)
  unfolding on_down diagram settled
  on_down-diagram m goose_up h = ground arith
  on_down-diagram m _ h = ground arith

  on_statement_begin-diagram :
      (m : Machine) (s : ParserState) {m' : Machine}
      → on_statement_begin m s ≡ ok m'
      → diagram annotation_statement_begin (settled s) ≡ some (settled m'.state)
  unfolding on_statement_begin diagram settled
  on_statement_begin-diagram m goose_up h = ground arith
  on_statement_begin-diagram m _ h = ground arith

  on_statement_end-diagram :
      (m : Machine) (s : ParserState) {m' : Machine}
      → on_statement_end m s ≡ ok m'
      → diagram annotation_statement_end (settled s) ≡ some (settled m'.state)
  unfolding on_statement_end diagram settled
  on_statement_end-diagram m goose_up h = ground arith
  on_statement_end-diagram m _ h = ground arith

  annotate-diagram :
      (m : Machine) (line : Str) (a : Annotation) {m' : Machine}
      → annotate expand dir m line a ≡ ok m'
      → diagram a (settled m.state) ≡ some (settled m'.state)
  unfolding annotate
  annotate-diagram m line annotation_up h = on_up-diagram m m.state h
  annotate-diagram m line annotation_down h = on_down-diagram m m.state h
  annotate-diagram m line annotation_statement_begin h = on_statement_begin-diagram m m.state h
  annotate-diagram m line annotation_statement_end h =
      let (n, e, f) = bind-eq-ok (on_statement_end m m.state) (λ n. body expand dir n line) h in
      on_statement_end-diagram m m.state e
      ∙ ap some (sym (body-TextEffect expand dir n line f).state)
  annotate-diagram m line _ h = unfold diagram in ground arith

  pub step-diagram :
      (m : Machine) (line : Str) {m' : Machine}
      → step expand dir m line ≡ ok m'
      → follow (line_annotation line) (settled m.state) ≡ some (settled m'.state)
  unfolding follow
  step-diagram m line h = elim (step-Accepted expand dir m line h) [
    | skipped same plain ↦ rw plain (rw same)
    | text t plain ↦ rw plain (ap some (sym (body-TextEffect expand dir m line t).state))
    | annotated a t marked ↦ rw marked (annotate-diagram m line a t)
  ]

  run-walk :
      (m : Machine) (lines : List Str) {m' : Machine}
      → run expand dir m lines ≡ ok m'
      → walk (settled m.state) lines ≡ some (settled m'.state)
  unfolding run walk
  run-walk m [] h = ground arith
  run-walk m (line ∷ lines) h =
      let (n, e, f) = bind-eq-ok (step expand dir m line) (λ n. run expand dir n lines) h in
      rw (step-diagram m line e, walk) (run-walk n lines f)

  -- The annotations of a file that parses follow the diagram from its start to a state outside a
  -- statement block: `Up` once, `Down` after it at most once, and blocks, which do not nest, after
  -- `Up` only.
  pub parse_walk :
      (lines : List Str) (failed : Bool) {r : List Str × Bool}
      → parse_lines expand dir lines failed ≡ ok r
      → (walk start lines ≡ some goose_up) ⊎ (walk start lines ≡ some goose_down)
  unfolding parse_lines
  parse_walk lines failed h =
      let (m, e, f) =
        bind-eq-ok (run expand dir initial lines)
          (λ m. if failed then err scan_failed else finish dir m m.state) h in
      unfold settled finish in ground (arith, run-walk initial lines e)
