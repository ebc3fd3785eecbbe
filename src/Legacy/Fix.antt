-- ===== src/Legacy/Fix.antt =====
-- fix.go and create.go, with `versioned` and `timestamped` of migrate.go: the numbers of migration files.
-- The functions of `os`, `time`, `fmt` and `text/template` that they call are parameters.
use pressly_goose_patches.Base.{
  ◌+◌, ◌-◌, ◌^◌, Bool, true, false, not, List, [], ◌∷◌, ◌++◌, Option, none, some, if◌then◌else◌,
  length, ◌==◌,
}
use pressly_goose_patches.Int.{ℤ, pos, negsuc, ltb_ℤ}
use pressly_goose_patches.Text.{Str, codes, has_prefix, drop, equal}
use pressly_goose_patches.Text.Cases.{Unicode, snake_case, camel_case}
use pressly_goose_patches.Outcome.{Error, external, Result, ok, err, Exec, lift, pure, ◌>>=◌, ◌>>◌}
use pressly_goose_patches.Provider.{Call}
use pressly_goose_patches.Provider.Run.{Done}
use pressly_goose_patches.Legacy.{LegacyMigration, made}
use pressly_goose_patches.Legacy.Files.{last_of}
use pressly_goose_patches.Legacy.Commands.{min_version, max_version}

-- `version + 1` of an int64.
unfoldable pub next_version : ℤ → ℤ
next_version (pos n) = if n == 2 ^ 63 - 1 then negsuc (2 ^ 63 - 1) else pos (n + 1)
next_version (negsuc n) = if n == 0 then pos 0 else negsuc (n - 1)

-- strings.Replace(s, old, new, 1), for an `old` that is not empty
unfoldable pub replace_first : Str → Str → Str → Str
unfolding has_prefix drop
replace_first old new [] = []
replace_first old new (c ∷ s) =
    let rest = replace_first old new s in
    if has_prefix (c ∷ s) old then new ++ drop (length old) (c ∷ s) else c ∷ rest

-- What the two use of the standard library. `parse_time` gives the seconds since 1970 of a text in
-- the format of timestamps.
pub record System (W : Type 0) : Type 0 where
  pub parse_time : Str → Option ℤ
  pub decimal : ℤ → Str
  pub five_digits : ℤ → Str
  pub timestamp : W → Str
  pub join : Str → Str → Str
  pub rename : Str → Str → Call W
  pub is_missing : Str → W → Bool
  pub create_file : Str → Call W
  -- The template of a type of migrations, executed into a file with a version and a name.
  pub execute : Str → Str → Str → Str → Call W

-- Whether a time is before 1970, or there is none, and whether it is after.
unfoldable pub is_before_epoch : Option ℤ → Bool
is_before_epoch none = true
is_before_epoch (some t) = ltb_ℤ t (pos 0)

unfoldable pub is_after_epoch : Option ℤ → Bool
is_after_epoch none = false
is_after_epoch (some t) = ltb_ℤ (pos 0) t

module _ {W : Type 0} (system : System W) where
  -- `Migrations.versioned` and `Migrations.timestamped`
  unfoldable pub versioned : List (LegacyMigration W) → List (LegacyMigration W)
  unfolding is_before_epoch
  versioned [] = []
  versioned (m ∷ ms) =
      let rest = versioned ms in
      if is_before_epoch (system.parse_time (system.decimal m.version)) then m ∷ rest else rest

  unfoldable pub timestamped : List (LegacyMigration W) → List (LegacyMigration W)
  unfolding is_after_epoch
  timestamped [] = []
  timestamped (m ∷ ms) =
      let rest = timestamped ms in
      if is_after_epoch (system.parse_time (system.decimal m.version)) then m ∷ rest else rest

  -- The version after the last one, or 1.
  unfoldable pub version_after : Result (LegacyMigration W) → ℤ
  unfolding next_version
  version_after (ok m) = next_version m.version
  version_after (err e) = pos 1

  -- The timestamped migrations with their new versions.
  unfoldable pub numbered : ℤ → List (LegacyMigration W) → List (LegacyMigration W × ℤ)
  unfolding next_version
  numbered version [] = []
  numbered version (m ∷ ms) = (m, version) ∷ numbered (next_version version) ms

  unfoldable pub renumbering : List (LegacyMigration W) → List (LegacyMigration W × ℤ)
  unfolding numbered version_after last_of versioned timestamped
  renumbering ms = numbered (version_after (last_of (versioned ms))) (timestamped ms)

  unfoldable pub rename_all : List (LegacyMigration W × ℤ) → Exec W Done
  unfolding replace_first
  rename_all [] = pure tt
  rename_all ((m, version) ∷ ms) =
      made (
        system.rename m.source
          (replace_first (system.decimal m.version) (system.five_digits version) m.source))
      >> rename_all ms

  -- `Fix`
  unfoldable pub fix : (ℤ → ℤ → Result (List (LegacyMigration W))) → Exec W Done
  unfolding renumbering rename_all
  fix collect = lift (collect min_version max_version) >>= λ ms. rename_all (renumbering ms)

  -- The migrations of a directory, where there may be none; the errors by their texts.
  unfoldable pub is_no_files : Error → Bool
  is_no_files (external text) = equal text (codes "no migration files found")
  is_no_files _ = false

  unfoldable pub or_none : Result (List (LegacyMigration W)) → Result (List (LegacyMigration W))
  unfolding is_no_files
  or_none (ok ms) = ok ms
  or_none (err e) = if is_no_files e then ok [] else err e

  unfoldable pub sequential_version : List (LegacyMigration W) → Str
  unfolding version_after last_of versioned
  sequential_version ms = system.five_digits (version_after (last_of (versioned ms)))

  unfoldable pub version_text : Bool → (ℤ → ℤ → Result (List (LegacyMigration W))) → Exec W Str
  unfolding or_none sequential_version
  version_text sequential collect =
      if sequential
      then (lift (or_none (collect min_version max_version)) >>= λ ms. pure (sequential_version ms))
      else (λ w. (ok (system.timestamp w), w))

  -- `Create`
  unfoldable pub create :
      Unicode → Bool → (ℤ → ℤ → Result (List (LegacyMigration W))) → Str → Str → Str → Exec W Done
  unfolding version_text snake_case camel_case
  create u sequential collect dir name type = version_text sequential collect >>= λ version. (λ w.
      let path = system.join dir (version ++ codes "_" ++ snake_case u name ++ codes "." ++ type) in
      if not (system.is_missing path w)
      then (err (external (codes "failed to create migration file")), w)
      else (made (system.create_file path)
            >> made (system.execute type path version (camel_case u name)))
          w)
