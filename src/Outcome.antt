-- ===== src/Outcome.antt =====
-- Errors as values, and the monad of the methods: a Go function that may fail and that changes the
-- world returns an error or a value, and the new world beside either.
use pressly_goose_patches.Base.{◌≡◌, refl, Bool, List, ◌⊎◌, inl, inr}
use pressly_goose_patches.Int.{ℤ}
use pressly_goose_patches.Text.{Str}
use pressly_goose_patches.SqlParser.{Direction, ParseError}
use pressly_goose_patches.Resolve.{MissingError}

-- `MigrationType` of provider_types.go, a string in the source.
pub data MigrationType : Type 0 where
  type_go type_sql : MigrationType
  type_other : Str → MigrationType

pub record Source : Type 0 where
  pub type : MigrationType
  pub path : Str
  pub version : ℤ

-- `MigrationResult` without the duration; its error is that of the `PartialError` around it.
pub record MigrationResult : Type 0 where
  pub source : Source
  pub direction : Direction
  pub empty : Bool

-- The errors of provider_errors.go and provider_run.go by their constructors, wrapped texts left
-- out. `external` is any error of a driver, a store, a locker or a migration function.
pub data Error : Type 0 where
  external : Str → Error
  unsupported db_version_not_found : Error
  panicked : Error
  open_failed : Error
  parse_failed : ParseError → Error
  mode_not_set deadlock_detected invalid_type conn_not_supported not_parsed : Error
  missing_zero_version version_not_found invalid_version no_next_version : Error
  unexpected_results : Error
  versioning_disabled by_one_without_versioning : Error
  already_applied not_applied : ℤ → Error
  missing_migrations : MissingError → Error
  failed_to_initialize : Error → Error
  partial : List MigrationResult → MigrationResult → Error → Error

pub data Result (A : Type 0) : Type 0 where
  ok : A → Result A
  err : Error → Result A

abbrev pub Exec : Type 0 → Type 0 → Type 0
Exec S A = S → Result A × S

module _ {S A : Type 0} where
  abbrev pub pure : A → Exec S A
  pure a s = (ok a, s)

  abbrev pub fail : Error → Exec S A
  fail e s = (err e, s)

  abbrev pub lift : Result A → Exec S A
  lift r s = (r, s)

module _ {S A B : Type 0} where
  abbrev pub continue : Result A → (A → Exec S B) → Exec S B
  continue (ok a) f s = f a s
  continue (err e) f s = (err e, s)

  infixl 10 ◌>>=◌ ◌>>◌
  abbrev pub ◌>>=◌ : Exec S A → (A → Exec S B) → Exec S B
  ◌>>=◌ m f s = continue (m s).0 f (m s).1

  abbrev pub ◌>>◌ : Exec S A → Exec S B → Exec S B
  m >> n = m >>= λ _. n

  split :
      (f : A → Exec S B) (r : Result A × S) {b : B} {t : S}
      → continue r.0 f r.1 ≡ (ok b, t)
      → (a : A) × (u : S) × (r ≡ (ok a, u)) × (f a u ≡ (ok b, t))
  split f (ok a, u) h = (a, u, refl, h)
  split f (err e, u) h = cc

  -- Inversion of a success.
  pub >>=-eq-ok :
      (m : Exec S A) (f : A → Exec S B) (s : S) {b : B} {t : S}
      → (m >>= f) s ≡ (ok b, t)
      → (a : A) × (u : S) × (m s ≡ (ok a, u)) × (f a u ≡ (ok b, t))
  >>=-eq-ok m f s h = split f (m s) h

pub Result-cases :
    {A : Type 0} (r : Result A) → ((a : A) × (r ≡ ok a)) ⊎ ((e : Error) × (r ≡ err e))
Result-cases (ok a) = inl (a, refl)
Result-cases (err e) = inr (e, refl)

pub Exec-cases :
    {S A : Type 0} (r : Result A × S)
    → ((a : A) × (u : S) × (r ≡ (ok a, u))) ⊎ ((e : Error) × (u : S) × (r ≡ (err e, u)))
Exec-cases (ok a, u) = inl (a, u, refl)
Exec-cases (err e, u) = inr (e, u, refl)

-- An action relates the world before it to the world after it, whether it fails or not.
pub record Keeps {S A : Type 0} (R : S → S → Type 0) (m : Exec S A) : Type 0 where
  pub at : (s : S) → R s (m s).1

module _ {S : Type 0} (R : S → S → Type 0) (r_refl : (s : S) → R s s)
    (r_trans : (s t u : S) → R s t → R t u → R s u) where
  pub Keeps-pure : {A : Type 0} (a : A) → Keeps R (pure {S = S} a)
  Keeps-pure a = record { at = r_refl }

  pub Keeps-fail : {A : Type 0} (e : Error) → Keeps R (fail {S = S} {A = A} e)
  Keeps-fail e = record { at = r_refl }

  continue-R :
      {A B : Type 0} (f : A → Exec S B) (s : S) (r : Result A × S)
      → R s r.1
      → ((a : A) → Keeps R (f a))
      → R s (continue r.0 f r.1).1
  continue-R f s (ok a, u) h k = r_trans s u (f a u).1 h ((k a).at u)
  continue-R f s (err e, u) h k = h

  pub Keeps-bind :
      {A B : Type 0} (m : Exec S A) (f : A → Exec S B)
      → Keeps R m
      → ((a : A) → Keeps R (f a))
      → Keeps R (m >>= f)
  Keeps-bind m f h k = record { at = λ s. continue-R f s (m s) (h.at s) k }
