-- ===== src/SqlParser/Sections.antt =====
-- Each pass of `ParseSQLMigration` of internal/sqlparser/parser.go reads its own section only.
use pressly_goose_patches.Base.{
  Bool, true, false, ◌≡◌, ◌≢◌, refl, sym, ◌∙◌, subst, ◌⊎◌, inl, inr, List, [], ◌∷◌, ◌++◌, Option,
  none, some, arith, if◌then◌else◌, is_nil, All,
}
use pressly_goose_patches.Text.{Str, trim_space}
use pressly_goose_patches.SqlParser.{
  Direction, direction_up, direction_down, ParserState, goose_up, goose_statement_end_up,
  goose_down, goose_statement_begin_down, goose_statement_end_down, Annotation, annotation_up,
  annotation_down, annotation_statement_end, ok, scan_failed, err, ◌>>=◌,
}
use pressly_goose_patches.SqlParser.Machine.{
  Machine, initial, on_up, on_down, on_statement_begin, on_statement_end, finish, body, annotate,
  step, run, parse_lines,
}
use pressly_goose_patches.SqlParser.Steps.{
  bind-eq-ok, Result-cases, line_annotation, settled, skipped, text, annotated, step-Accepted,
  is_opposite, body-Dropped,
}
use pressly_goose_patches.SqlParser.Directions.{finish-eq-ok}
use pressly_goose_patches.SqlParser.Diagram.{follow, step-diagram}

-- The states of the down section.
unfoldable pub is_down : ParserState → Bool
is_down goose_down = true
is_down goose_statement_begin_down = true
is_down goose_statement_end_down = true
is_down _ = false

-- Nothing is collected, and an empty buffer stays empty.
abbrev Unchanged : Machine → Machine → Type 0
Unchanged m m' = (m'.stmts ≡ m.stmts) × (m.buf ≡ [] → m'.buf ≡ [])

module _ (expand : Str → Option Str) (dir : Direction) where
  on_statement_end-fields :
      (m : Machine) (s : ParserState) {m' : Machine}
      → is_opposite dir s ≡ true
      → on_statement_end m s ≡ ok m'
      → (m'.stmts ≡ m.stmts) × (m'.buf ≡ m.buf) × (is_opposite dir m'.state ≡ true)
  unfolding on_statement_end is_opposite
  on_statement_end-fields m goose_up o h = ground arith
  on_statement_end-fields m _ o h = ground arith

  annotate-Unchanged :
      (m : Machine) (line : Str) (a : Annotation) {m' : Machine}
      → is_opposite dir m.state ≡ true
      → annotate expand dir m line a ≡ ok m'
      → Unchanged m m'
  unfolding annotate on_up on_down on_statement_begin
  annotate-Unchanged m line annotation_statement_end o h =
      let (n, e, f) = bind-eq-ok (on_statement_end m m.state) (λ n. body expand dir n line) h in
      let (kept, buf, o') = on_statement_end-fields m m.state o e in
      let d = body-Dropped expand dir n line o' f in (d.0 ∙ kept, λ b. d.1 (buf ∙ b))
  annotate-Unchanged m line _ o h = (ground arith, λ b. ground arith)

  step-Unchanged :
      (m : Machine) (line : Str) {m' : Machine}
      → is_opposite dir m.state ≡ true
      → step expand dir m line ≡ ok m'
      → Unchanged m m'
  step-Unchanged m line o h = elim (step-Accepted expand dir m line h) [
    | skipped same plain ↦ rw same (refl, λ b. b)
    | text t plain ↦ let d = body-Dropped expand dir m line o t in (d.0, d.1)
    | annotated a t marked ↦ annotate-Unchanged m line a o t
  ]

  pub run-append :
      (m : Machine) (xs ys : List Str)
      → run expand dir m (xs ++ ys) ≡ (run expand dir m xs >>= λ n. run expand dir n ys)
  unfolding run
  run-append m [] ys = refl
  run-append m (x ∷ xs) ys = elim (Result-cases (step expand dir m x)) [
    | inl (n, e) ↦ rw e (run-append n xs ys)
    | inr (why, e) ↦ rw e
  ]

-- The down section is not left, and only a `Down` annotation leads to it.
is_down-settled : (s : ParserState) → is_down (settled s) ≡ is_down s
unfolding is_down settled
is_down-settled goose_up = refl
is_down-settled _ = refl

is_down-follow :
    (o : Option Annotation) (s s' : ParserState)
    → follow o s ≡ some s'
    → is_down s ≡ true
    → is_down s' ≡ true
unfolding follow is_down
is_down-follow none s s' h d = ground arith
is_down-follow (some annotation_up) s s' h d = ground arith
is_down-follow (some _) s s' h d = ground arith

not_down-follow :
    (o : Option Annotation) (s s' : ParserState)
    → follow o s ≡ some s'
    → o ≢ some annotation_down
    → is_down s ≡ false
    → is_down s' ≡ false
unfolding follow is_down
not_down-follow none s s' h ne d = ground arith
not_down-follow (some annotation_down) s s' h ne d = absurd (ne refl)
not_down-follow (some _) s s' h ne d = ground arith

abbrev pub HasNoDown : List Str → Type 0
HasNoDown lines = All (λ line. line_annotation line ≢ some annotation_down) lines

module _ (expand : Str → Option Str) where
  step-is_down :
      (dir : Direction) (m : Machine) (line : Str) {m' : Machine}
      → step expand dir m line ≡ ok m'
      → is_down m.state ≡ true
      → is_down m'.state ≡ true
  step-is_down dir m line {m'} h d = rw (← is_down-settled) (
      is_down-follow (line_annotation line) (settled m.state) (settled m'.state)
        (step-diagram expand dir m line h) (rw is_down-settled d))

  -- In the up direction nothing is collected from the down section.
  run_down_section :
      (m : Machine) (lines : List Str) {m' : Machine}
      → is_down m.state ≡ true
      → run expand direction_up m lines ≡ ok m'
      → m'.stmts ≡ m.stmts
  unfolding run
  run_down_section m [] d h = ground arith
  run_down_section m (line ∷ lines) d h =
      let (n, e, f) =
        bind-eq-ok (step expand direction_up m line) (λ n. run expand direction_up n lines) h in
      let opposite : is_opposite direction_up m.state ≡ true =
        unfold is_opposite is_down in ground arith in
      let u = step-Unchanged expand direction_up m line opposite e in
      run_down_section n lines (step-is_down direction_up m line e d) f ∙ u.0

  on_down-eq-ok :
      (m : Machine) (s : ParserState) {m' : Machine}
      → on_down direction_up m s ≡ ok m'
      → (is_nil (trim_space m.buf) ≡ true)
        × (m' ≡ record m { state = goose_down })
        × ((s ≡ goose_up) ⊎ (s ≡ goose_statement_end_up))
  unfolding on_down
  on_down-eq-ok m goose_up h = ground arith
  on_down-eq-ok m _ h = ground arith

  step-down_line :
      (m : Machine) (line : Str) {m' : Machine}
      → line_annotation line ≡ some annotation_down
      → step expand direction_up m line ≡ ok m'
      → on_down direction_up m m.state ≡ ok m'
  unfolding annotate
  step-down_line m line {m'} d h = elim (step-Accepted expand direction_up m line h) [
    | skipped same plain ↦ cc
    | text t plain ↦ cc
    | annotated a t marked ↦
        let is : a ≡ annotation_down = cc in
        subst (λ x. annotate expand direction_up m line x ≡ ok m') is t
  ]

  finish_up :
      (n : Machine)
      → is_nil (trim_space n.buf) ≡ true
      → (n.state ≡ goose_up) ⊎ (n.state ≡ goose_statement_end_up)
      → finish direction_up n n.state ≡ ok (n.stmts, n.use_tx)
  unfolding finish
  finish_up n blank from = ground arith

  collected_above :
      (n k m : Machine) (post : List Str) (failed use_tx : Bool) (stmts : List Str)
      → k ≡ record n { state = goose_down }
      → run expand direction_up k post ≡ ok m
      → (if failed then err scan_failed else finish direction_up m m.state) ≡ ok (stmts, use_tx)
      → stmts ≡ n.stmts
  collected_above n k m post failed use_tx stmts down r f =
      let in_down : is_down k.state ≡ true = unfold is_down in ground arith in
      ground (
        arith,
        finish-eq-ok direction_up m m.state {r = (stmts, use_tx)},
        run_down_section k post in_down r,
      )

  -- In the up direction a file gives the statements that its part before a `Down` annotation gives
  -- by itself: what stands below is read, and can make the file fail, but adds nothing.
  pub parse_up_section :
      (pre post : List Str) (d : Str) (failed use_tx : Bool) (stmts : List Str)
      → line_annotation d ≡ some annotation_down
      → parse_lines expand direction_up (pre ++ d ∷ post) failed ≡ ok (stmts, use_tx)
      → (tx : Bool) × (parse_lines expand direction_up pre false ≡ ok (stmts, tx))
  unfolding parse_lines run
  parse_up_section pre post d failed use_tx stmts marked h =
      let (m, e, f) =
        bind-eq-ok (run expand direction_up initial (pre ++ d ∷ post))
          (λ m. if failed then err scan_failed else finish direction_up m m.state) h in
      let (n, e', g) =
        bind-eq-ok (run expand direction_up initial pre) (λ n. run expand direction_up n (d ∷ post))
          (sym (run-append expand direction_up initial pre (d ∷ post)) ∙ e) in
      let (k, s, r) =
        bind-eq-ok (step expand direction_up n d) (λ k. run expand direction_up k post) g in
      let (blank, down, from) = on_down-eq-ok n n.state (step-down_line n d marked s) in
      (
        n.use_tx,
        rw (e', collected_above n k m post failed use_tx stmts down r f) (finish_up n blank from),
      )

  run_up_section :
      (m : Machine) (lines : List Str) {m' : Machine}
      → HasNoDown lines
      → is_down m.state ≡ false
      → run expand direction_down m lines ≡ ok m'
      → Unchanged m m'
  unfolding run
  run_up_section m [] a d h = (ground arith, λ b. ground arith)
  run_up_section m (line ∷ lines) a d h =
      let (n, e, f) =
        bind-eq-ok (step expand direction_down m line) (λ n. run expand direction_down n lines) h in
      let opposite : is_opposite direction_down m.state ≡ true =
        unfold is_opposite is_down in ground arith in
      let u = step-Unchanged expand direction_down m line opposite e in
      let stays =
        not_down-follow (line_annotation line) (settled m.state) (settled n.state)
          (step-diagram expand direction_down m line e) a.0 (rw is_down-settled d) in
      let v = run_up_section n lines a.1 (rw is_down-settled at stays) f in
      (v.0 ∙ u.0, λ b. v.1 (u.1 b))

  -- In the down direction a file without a `Down` annotation that parses gives no statement.
  pub parse_without_down :
      (lines : List Str) (failed use_tx : Bool) (stmts : List Str)
      → HasNoDown lines
      → parse_lines expand direction_down lines failed ≡ ok (stmts, use_tx)
      → stmts ≡ []
  unfolding parse_lines
  parse_without_down lines failed use_tx stmts a h =
      let (m, e, f) =
        bind-eq-ok (run expand direction_down initial lines)
          (λ m. if failed then err scan_failed else finish direction_down m m.state) h in
      ground (
        arith,
        finish-eq-ok direction_down m m.state,
        run_up_section initial lines a (unfold is_down in refl) e,
      )
