-- ===== src/Registry/Checked.antt =====
-- What holds of Go migrations that globals.go and register.go have registered.
use pressly_goose_patches.Base.{
  ◌≡◌, refl, Bool, true, false, not, ◌&&◌, List, [], ◌∷◌, Option, none, some, All, arith, subst,
  sym, ◌⊎◌,
}
use pressly_goose_patches.Int.{ℤ, pos, ltb_ℤ, ◌<ℤ◌, le→ltb_ℤ}
use pressly_goose_patches.VersionMap.{VersionMap, lookup, insert}
use pressly_goose_patches.Text.{Str}
use pressly_goose_patches.Outcome.{
  MigrationType, type_go, type_sql, type_other, ok, err, deadlock_detected,
}
use pressly_goose_patches.Provider.{
  TransactionMode, mode_unset, transaction_enabled, transaction_disabled, mode_other, GoAction,
  GoFunc, Migration, Provider, State,
}
use pressly_goose_patches.Provider.Run.{
  is_mode_unset, is_enabled, prepare_go, prepare_type, prepare_migration,
}
use pressly_goose_patches.Registry.{
  Registration, RegistryError, is_disabled, inferred, or_else, is_go, check_source, set_func,
  set_legacy, update_mode, new_go_migration, check_go_func, check_legacy, check_go_migration,
  add_checked, stop_at, set_one, set_global_migrations,
}

insert-All :
    {V : Type 0} (P : ℤ × V → Type 0) (k : ℤ) (v : V) (m : VersionMap V)
    → P (k, v)
    → All P m
    → All P (insert k v m)
unfolding insert
insert-All P k v [] p h = (p, tt)
insert-All P k v ((j, w) ∷ m) p h = ground (arith, insert-All P k v m p)

known :
    (m : TransactionMode)
    → (not (is_enabled m) && not (is_disabled m)) ≡ false
    → is_mode_unset m ≡ false
unfolding is_enabled is_disabled is_mode_unset
known mode_unset h = ground arith
known transaction_enabled h = refl
known transaction_disabled h = refl
known mode_other h = refl

or_else-none : (a b : Option RegistryError) → or_else a b ≡ none → (a ≡ none) × (b ≡ none)
unfolding or_else
or_else-none none b h = (refl, h)
or_else-none (some e) b h = ground arith

is_go-eq : (t : MigrationType) → is_go t ≡ true → t ≡ type_go
unfolding is_go
is_go-eq type_go h = refl
is_go-eq type_sql h = ground arith
is_go-eq (type_other x) h = ground arith

module _ {W : Type 0} where
  -- At most one function, and a mode that is unset or fits it.
  abbrev pub FitsGo : GoFunc W → Type 0
  FitsGo f =
      ((f.run_tx ≡ none)
        × (f.run_db ≡ none)
        × ((f.mode ≡ mode_unset)
            ⊎ ((f.mode ≡ transaction_enabled) ⊎ (f.mode ≡ transaction_disabled))))
      ⊎ (((a : GoAction W) × (f.run_tx ≡ some a)
            × (f.run_db ≡ none)
            × ((f.mode ≡ mode_unset) ⊎ (f.mode ≡ transaction_enabled)))
          ⊎ ((a : GoAction W) × (f.run_tx ≡ none)
              × (f.run_db ≡ some a)
              × ((f.mode ≡ mode_unset) ⊎ (f.mode ≡ transaction_disabled))))

  abbrev pub Fits : Option (GoFunc W) → Type 0
  Fits none = Unit
  Fits (some f) = FitsGo f

  set_func-checks : (o : Option (GoFunc W)) → Fits o → check_go_func (set_func o) ≡ none
  unfolding set_func check_go_func is_disabled is_enabled update_mode is_mode_unset inferred
  set_func-checks none h = refl
  set_func-checks (some f) h = ground arith

  set_legacy-checks : (o : Option (GoFunc W)) → Fits o → check_legacy (set_legacy o) ≡ none
  unfolding set_legacy check_legacy
  set_legacy-checks none h = refl
  set_legacy-checks (some f) h = ground arith

  -- A Go migration that `NewGoMigration` makes of a positive version, and of functions of which each
  -- direction has at most one with a mode that is unset or fits it, passes `checkGoMigration`.
  pub new_go_migration-checks :
      (base : Str → Str) (version : ℤ) (up down : Option (GoFunc W))
      → pos 0 <ℤ version
      → Fits up
      → Fits down
      → check_go_migration base (new_go_migration version up down) ≡ none
  unfolding new_go_migration check_go_migration check_source is_go or_else
  new_go_migration-checks base version up down h u d =
      let a = set_func-checks up u in
      let b = set_func-checks down d in
      let c = set_legacy-checks up u in
      let e = set_legacy-checks down d in
      let z : ltb_ℤ version (pos 1) ≡ false = le→ltb_ℤ version (pos 1) (omega arith) in
      rw (z, a, b, c, e)

  -- What a registry holds: migrations that pass the check, under their own versions.
  abbrev pub IsRegistry : (Str → Str) → VersionMap (Registration W) → Type 0
  IsRegistry base = All (λ (v, r). (v ≡ r.migration.version) × (check_go_migration base r ≡ none))

  add_checked-IsRegistry :
      (base : Str → Str) (r : Registration W) (o : Option (Registration W))
      (e : Option RegistryError) (registry : VersionMap (Registration W))
      → check_go_migration base r ≡ e
      → IsRegistry base registry
      → IsRegistry base (add_checked r o e registry).1
  unfolding add_checked
  add_checked-IsRegistry base r (some _) e registry c h = h
  add_checked-IsRegistry base r none (some e) registry c h = h
  add_checked-IsRegistry base r none none registry c h =
      insert-All (λ (v, r). (v ≡ r.migration.version) × (check_go_migration base r ≡ none))
        r.migration.version r registry (refl, c) h

  stop_at-IsRegistry :
      (base : Str → Str) (e : Option RegistryError) (next : VersionMap (Registration W))
      (rest : Option RegistryError × VersionMap (Registration W))
      → IsRegistry base next
      → IsRegistry base rest.1
      → IsRegistry base (stop_at e next rest).1
  unfolding stop_at
  stop_at-IsRegistry base (some x) next rest h k = h
  stop_at-IsRegistry base none next rest h k = k

  -- `SetGlobalMigrations` keeps a registry of checked migrations, each under its own version, whether it
  -- returns an error or not.
  pub set_global_migrations-IsRegistry :
      (base : Str → Str) (rs : List (Registration W)) (registry : VersionMap (Registration W))
      → IsRegistry base registry
      → IsRegistry base (set_global_migrations base rs registry).1
  unfolding set_global_migrations set_one
  set_global_migrations-IsRegistry base [] registry h = h
  set_global_migrations-IsRegistry base (r ∷ rs) registry h =
      let k : IsRegistry base (set_one base r registry).1 =
        add_checked-IsRegistry base r (lookup r.migration.version registry)
          (check_go_migration base r) registry refl h in
      stop_at-IsRegistry base (set_one base r registry).0 (set_one base r registry).1 _ k
        (set_global_migrations-IsRegistry base rs (set_one base r registry).1 k)

  known_mode : (f : GoFunc W) → check_go_func f ≡ none → is_mode_unset f.mode ≡ false
  unfolding check_go_func
  known_mode f h = known f.mode (ground arith)

  checked_type :
      (base : Str → Str) (r : Registration W)
      → check_go_migration base r ≡ none
      → (r.migration.type ≡ type_go)
        × (check_go_func r.migration.go_up ≡ none)
        × (check_go_func r.migration.go_down ≡ none)
  unfolding check_go_migration is_go
  checked_type base r h =
      let up = check_go_func r.migration.go_up in
      let down = check_go_func r.migration.go_down in
      let legacy = or_else (check_legacy r.up) (check_legacy r.down) in
      let go : is_go r.migration.type ≡ true = ground arith in
      let g : or_else (check_source base r.migration) (or_else up (or_else down legacy)) ≡ none =
        ground arith in
      let (_, g1) =
        or_else-none (check_source base r.migration) (or_else up (or_else down legacy)) g in
      let (a, g2) = or_else-none up (or_else down legacy) g1 in
      let (b, _) = or_else-none down legacy g2 in (is_go-eq r.migration.type go, a, b)

  prepare_go-known :
      (p : Provider W) (m : Migration W) (direction : Bool) (s : State W)
      → is_mode_unset m.go_up.mode ≡ false
      → is_mode_unset m.go_down.mode ≡ false
      → (prepare_go p m direction s ≡ (ok tt, s))
        ⊎ (prepare_go p m direction s ≡ (err deadlock_detected, s))
  unfolding prepare_go
  prepare_go-known p m direction s a b = ground arith

  -- The preparation of a Go migration that passes `checkGoMigration` succeeds and changes nothing, or it
  -- detects the deadlock of a session lock on a single connection and changes nothing; it never
  -- complains of a transaction mode that is not set.
  pub checked_migration-prepares :
      (p : Provider W) (base : Str → Str) (r : Registration W) (direction : Bool) (s : State W)
      → check_go_migration base r ≡ none
      → (prepare_migration p r.migration direction s ≡ (ok tt, s))
        ⊎ (prepare_migration p r.migration direction s ≡ (err deadlock_detected, s))
  unfolding prepare_migration prepare_type
  checked_migration-prepares p base r direction s h =
      let (t, a, b) = checked_type base r h in
      let k = prepare_go-known p r.migration direction s (known_mode _ a) (known_mode _ b) in
      subst
        (λ t.
          (prepare_type p t r.migration direction s ≡ (ok tt, s))
          ⊎ (prepare_type p t r.migration direction s ≡ (err deadlock_detected, s)))
        (sym t) k
