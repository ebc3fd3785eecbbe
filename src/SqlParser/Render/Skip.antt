-- ===== src/SqlParser/Render/Skip.antt =====
-- `ParseSQLMigration` of internal/sqlparser/parser.go over written statements of the other direction.
use pressly_goose_patches.Base.{
  Bool, false, ◌≡◌, refl, ◌∙◌, ◌⊎◌, inl, inr, not, List, [], ◌∷◌, Option, arith, All,
}
use pressly_goose_patches.Text.{Str}
use pressly_goose_patches.SqlParser.{Direction, ok}
use pressly_goose_patches.SqlParser.Machine.{Machine, is_annotation_line, step, run}
use pressly_goose_patches.SqlParser.Steps.{settled}
use pressly_goose_patches.SqlParser.{from_bool}
use pressly_goose_patches.SqlParser.Sections.{run-append}
use pressly_goose_patches.SqlParser.Render.{
  Item, simple, block, end_line, item_lines, render, IsWritable, home, inside, ended, settled-ended,
}
use pressly_goose_patches.SqlParser.Render.Section.{step_begin}

module _ (expand : Str → Option Str) (up : Bool) where
  -- The same lines in the other direction.
  abbrev pub other : Direction
  other = from_bool (not up)

  step_skipped :
      (m : Machine) (line : Str)
      → (settled m.state ≡ home up) ⊎ (m.state ≡ inside up)
      → m.buf ≡ []
      → m.use_envsub ≡ false
      → is_annotation_line line ≡ false
      → step expand other m line ≡ ok m
  unfolding step home inside from_bool settled
  step_skipped m line s b e p = ground arith

  step_end_skipped :
      (m : Machine)
      → m.state ≡ inside up
      → m.buf ≡ []
      → step expand other m end_line ≡ ok (record m { state = ended up })
  unfolding step inside ended from_bool
  step_end_skipped m s b = ground arith

  run-inside_skipped :
      (m : Machine) (lines : List Str)
      → m.state ≡ inside up
      → m.buf ≡ []
      → m.use_envsub ≡ false
      → All (λ l. is_annotation_line l ≡ false) lines
      → run expand other m lines ≡ ok m
  unfolding run
  run-inside_skipped m [] s b e a = refl
  run-inside_skipped m (line ∷ lines) s b e a =
      rw (step_skipped m line (inr s) b e a.0) (run-inside_skipped m lines s b e a.1)

  -- What is left of the items of the other direction: the state, which may be that of a block's end.
  abbrev pub Skipped : Machine → Machine → Type 0
  Skipped m m' =
      (m'.stmts ≡ m.stmts)
      × (m'.buf ≡ [])
      × (m'.use_tx ≡ m.use_tx)
      × (m'.use_envsub ≡ false)
      × (settled m'.state ≡ home up)

  run_item-Skipped :
      (m : Machine) (item : Item)
      → settled m.state ≡ home up
      → m.buf ≡ []
      → m.use_envsub ≡ false
      → IsWritable item
      → (m' : Machine) × (run expand other m (item_lines item) ≡ ok m') × Skipped m m'
  unfolding run item_lines
  run_item-Skipped m (simple line) s b e w =
      (m, rw (step_skipped m line (inl s) b e w.0.0), (refl, b, refl, e, s))
  run_item-Skipped m (block line lines) s b e w =
      let opened = record m { state = inside up } in
      (
        record m { state = ended up },
        rw (step_begin expand up other m s) (
            rw (step_skipped opened line (inr refl) b e w.0.0) (
              rw (run-append expand other opened lines (end_line ∷ [])) (
                rw (run-inside_skipped opened lines refl b e w.1)
                  (rw (step_end_skipped opened refl b))))),
        (refl, b, refl, e, settled-ended up),
      )

  pub run_items-Skipped :
      (m : Machine) (items : List Item)
      → settled m.state ≡ home up
      → m.buf ≡ []
      → m.use_envsub ≡ false
      → All IsWritable items
      → (m' : Machine) × (run expand other m (render items) ≡ ok m') × Skipped m m'
  unfolding render
  run_items-Skipped m [] s b e w = (m, unfold run in refl, (refl, b, refl, e, s))
  run_items-Skipped m (item ∷ items) s b e w =
      let (n, r, k) = run_item-Skipped m item s b e w.0 in
      let (o, r', k') = run_items-Skipped n items k.4 k.1 k.3 w.1 in
      (
        o,
        rw (run-append expand other m (item_lines item) (render items)) (rw r r'),
        (k'.0 ∙ k.0, k'.1, k'.2 ∙ k.2, k'.3, k'.4),
      )
