-- ===== src/Legacy/Ends.antt =====
-- down.go: the loop of `DownToContext` ends, whatever its target version, and fuel for it.
use pressly_goose_patches.Base.{◌≡◌, Bool, true, false, List, [], if◌then◌else◌, ◌⊎◌, All}
use pressly_goose_patches.Int.{ℤ, pos, eqb_ℤ, leb_ℤ}
use pressly_goose_patches.Outcome.{Result, ok, Exec, lift, pure, ◌>>=◌, ◌>>◌}
use pressly_goose_patches.Provider.{Driver, Store, ListResult}
use pressly_goose_patches.Legacy.{LegacyMigration}
use pressly_goose_patches.Legacy.Files.{current_of}
use pressly_goose_patches.Legacy.Versions.{current_version}
use pressly_goose_patches.Legacy.Commands.{down_one}
use pressly_goose_patches.Legacy.Rollback.{LegacyLedger, IsTame}

module _ {W : Type 0} (driver : Driver W) (store : Store W)
    (collect : ℤ → ℤ → Result (List (LegacyMigration W))) (rows : W → List ListResult)
    (ledger : LegacyLedger driver store rows) where
  -- A new table, or the current version of the rows.
  Found : ℤ → W → W → Type 0
  Found v w t = (v ≡ pos 0) ⊎ ((current_version (rows w) [] ≡ ok v) × (rows t ≡ rows w))

  module _ (version : ℤ) (ms : List (LegacyMigration W))
      (tame : All (IsTame driver store rows) ms) where
    -- What follows the current version in a round.
    undo : LegacyMigration W → Exec W Bool
    undo m =
        if leb_ℤ m.version version
        then pure true
        else (down_one driver store collect m >> pure false)

    found_one : Result (LegacyMigration W) → Exec W Bool
    found_one r = lift r >>= undo

    rest : ℤ → Exec W Bool
    rest v = if eqb_ℤ v (pos 0) then pure true else found_one (current_of v ms)
