-- ===== src/Legacy/Dispatch.antt =====
-- goose.go: `run`, the commands by their names, and status.go.
use pressly_goose_patches.Base.{
  ℕ, Bool, true, false, List, [], ◌∷◌, Option, none, some, if◌then◌else◌,
}
use pressly_goose_patches.Int.{ℤ}
use pressly_goose_patches.Text.{Str, codes, equal}
use pressly_goose_patches.Text.Cases.{Unicode}
use pressly_goose_patches.Outcome.{
  Error, external, db_version_not_found, Result, ok, err, Exec, lift, pure, fail, ◌>>=◌, ◌>>◌,
}
use pressly_goose_patches.Provider.{db, Driver, Store}
use pressly_goose_patches.Provider.Run.{Done}
use pressly_goose_patches.Collect.{parse_int}
use pressly_goose_patches.Legacy.{LegacyMigration}
use pressly_goose_patches.Legacy.Versions.{ensure_db_version}
use pressly_goose_patches.Legacy.Commands.{
  Options, min_version, max_version, up_to, down, down_to, reset, redo, version,
}
use pressly_goose_patches.Legacy.Fix.{System, fix, create}

abbrev pub wrong_arguments : Error
wrong_arguments = external (codes "wrong arguments")

module _ {W : Type 0} (driver : Driver W) (store : Store W) (system : System W) (u : Unicode)
    (collect : ℤ → ℤ → Result (List (LegacyMigration W))) where
  -- `printMigrationStatus`: whether the migration is applied. `sql.ErrNoRows` is `db_version_not_found`.
  applied_row : Option Bool × Option Error × W → Result Bool × W
  applied_row (row, none, w) = (ok (elim row [ none ↦ false | some b ↦ b ]), w)
  applied_row (row, some db_version_not_found, w) = (ok (elim row [ none ↦ false | some b ↦ b ]), w)
  applied_row (row, some e, w) = (err e, w)

  unfoldable pub status_rows : List (LegacyMigration W) → Exec W (List (Str × Bool))
  unfolding applied_row
  status_rows [] = pure []
  status_rows (m ∷ ms) = (λ w. applied_row (store.get_migration db m.version w)) >>= λ b.
      status_rows ms >>= λ rest. pure ((m.source, b) ∷ rest)

  unversioned_rows : List (LegacyMigration W) → List (Str × Bool)
  unversioned_rows [] = []
  unversioned_rows (m ∷ ms) = (m.source, false) ∷ unversioned_rows ms

  -- `StatusContext`, by the rows that it prints.
  unfoldable pub status : Options → Exec W (List (Str × Bool))
  unfolding status_rows unversioned_rows
  status o = lift (collect min_version max_version) >>= λ ms.
      if o.no_versioning
      then pure (unversioned_rows ms)
      else (ensure_db_version driver store >> status_rows ms)

  first_version : List Str → Result ℤ
  first_version [] = err wrong_arguments
  first_version (a ∷ args) = elim (parse_int a) [ none ↦ err wrong_arguments | some v ↦ ok v ]

  -- The loop of `DownToContext` with fuel; running out of it is an error of its own.
  fuelled : Option (Result Done × W) → W → Result Done × W
  fuelled none w = (err (external (codes "out of fuel")), w)
  fuelled (some r) w = r

  second_or_go : List Str → Str
  second_or_go (a ∷ b ∷ []) = b
  second_or_go _ = codes "go"

  create_of : Bool → Str → List Str → Exec W Done
  unfolding second_or_go
  create_of sequential dir [] = fail wrong_arguments
  create_of sequential dir (name ∷ args) =
      create system u sequential collect dir name (second_or_go (name ∷ args))

  -- `run` of goose.go; the package variable `sequential` is an argument.
  unfoldable pub run_command : ℕ → Options → Bool → Str → Str → List Str → Exec W Done
  unfolding first_version fuelled create_of
  run_command fuel o sequential dir command args =
      if equal command (codes "up")
      then up_to driver store collect o max_version
      else if equal command (codes "up-by-one")
      then up_to driver store collect (record o { apply_up_by_one = true }) max_version
      else if equal command (codes "up-to")
      then (lift (first_version args) >>= λ v. up_to driver store collect o v)
      else if equal command (codes "create")
      then create_of sequential dir args
      else if equal command (codes "down")
      then down driver store collect o
      else if equal command (codes "down-to")
      then (lift (first_version args) >>= λ v.
          (λ w. fuelled (down_to driver store collect fuel o v w) w))
      else if equal command (codes "fix")
      then fix system collect
      else if equal command (codes "redo")
      then redo driver store collect o
      else if equal command (codes "reset")
      then reset driver store collect o
      else if equal command (codes "status")
      then (status o >> pure tt)
      else if equal command (codes "version")
      then (version driver store collect o >> pure tt)
      else fail (external (codes "no such command"))
