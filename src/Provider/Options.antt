-- ===== src/Provider/Options.antt =====
-- provider_options.go, and `NewProvider` and `newProvider` of provider.go. A nil argument of an option is
-- `none`. `database.NewStore` and the file system are parameters.
pub mod Exclusive
mod Tests
use pressly_goose_patches.Base.{
  ◌≡◌, refl, Bool, true, false, not, ◌&&◌, ◌||◌, List, [], ◌∷◌, Option, none, some, if◌then◌else◌,
  is_nil,
}
use pressly_goose_patches.Int.{ℤ, pos, ltb_ℤ, eqb_ℤ}
use pressly_goose_patches.VersionMap.{VersionMap, lookup, insert}
use pressly_goose_patches.Text.{Str, codes, equal}
use pressly_goose_patches.Outcome.{Error, external, invalid_version, Result, ok, err}
use pressly_goose_patches.Provider.{Locker, Store, Driver, Config, Provider, Migration}
use pressly_goose_patches.Provider.Run.{is_some}
use pressly_goose_patches.Registry.{Registration, check_go_migration, add_checked}
use pressly_goose_patches.Collect
use pressly_goose_patches.Collect.{Excludes}
use pressly_goose_patches.Collect.Merge.{Registered, provider_migrations}

-- A store and its `Tablename`.
pub record NamedStore (W : Type 0) : Type 0 where
  pub tablename : Str
  pub store : Store W

-- `config`; of the loggers only whether they are set.
pub record Settings (W : Type 0) : Type 0 where
  pub table_name : Str
  pub store : Option (NamedStore W)
  pub verbose : Bool
  pub exclude_paths : List Str
  pub exclude_versions : List ℤ
  pub registered : VersionMap (Registration W)
  pub lock_enabled : Bool
  pub session_locker : Option (Locker W)
  pub locker : Option (Locker W)
  pub disable_versioning : Bool
  pub allow_missing : Bool
  pub disable_global_registry : Bool
  pub isolate_ddl : Bool
  pub logger : Bool
  pub slogger : Bool

-- The options, by the names of the functions that make them.
pub data ProviderOption (W : Type 0) : Type 0 where
  with_store : Option (NamedStore W) → ProviderOption W
  with_table_name : Str → ProviderOption W
  with_verbose : Bool → ProviderOption W
  with_session_locker with_locker : Option (Locker W) → ProviderOption W
  with_exclude_names : List Str → ProviderOption W
  with_exclude_versions : List ℤ → ProviderOption W
  with_go_migrations : List (Registration W) → ProviderOption W
  with_disable_global_registry with_allow_out_of_order : Bool → ProviderOption W
  with_disable_versioning with_isolate_ddl : Bool → ProviderOption W
  -- Whether the logger is not nil.
  with_logger with_slog : Bool → ProviderOption W

abbrev pub wrong_option : Error
wrong_option = external (codes "wrong option")

unfoldable pub is_member : Str → List Str → Bool
unfolding equal
is_member s [] = false
is_member s (t ∷ ts) = equal t s || is_member s ts

unfoldable pub is_excluded : ℤ → List ℤ → Bool
is_excluded v [] = false
is_excluded v (w ∷ ws) = eqb_ℤ w v || is_excluded v ws

-- The loops of `WithExcludeNames` and of `WithExcludeVersions`.
unfoldable pub add_names : List Str → List Str → Result (List Str)
unfolding is_member
add_names [] excluded = ok excluded
add_names (n ∷ ns) excluded =
    let rest = add_names ns (n ∷ excluded) in
    if is_member n excluded then err wrong_option else rest

unfoldable pub add_versions : List ℤ → List ℤ → Result (List ℤ)
unfolding is_excluded
add_versions [] excluded = ok excluded
add_versions (v ∷ vs) excluded =
    let rest = add_versions vs (v ∷ excluded) in
    if ltb_ℤ v (pos 1)
    then err invalid_version
    else if is_excluded v excluded
    then err wrong_option
    else rest

unfoldable pub mapped : {A B : Type 0} → (A → B) → Result A → Result B
mapped f (ok a) = ok (f a)
mapped f (err e) = err e

-- `cmp.Or(cfg.tableName, DefaultTablename)`
unfoldable pub table_name_or_default : Str → Str
table_name_or_default name = if is_nil name then codes "goose_db_version" else name

module _ {W : Type 0} where
  unfoldable pub set_store : Option (NamedStore W) → Settings W → Result (Settings W)
  set_store none c = err wrong_option
  set_store (some s) c =
      if is_some c.store
      then err wrong_option
      else if is_nil s.tablename
      then err wrong_option
      else ok (record c { store = some s })

  unfoldable pub set_session_locker : Option (Locker W) → Settings W → Result (Settings W)
  set_session_locker l c =
      if c.lock_enabled
      then err wrong_option
      else if is_some c.session_locker
      then err wrong_option
      else if is_some c.locker
      then err wrong_option
      else if not (is_some l)
      then err wrong_option
      else ok (record c { lock_enabled = true; session_locker = l })

  unfoldable pub set_locker : Option (Locker W) → Settings W → Result (Settings W)
  set_locker l c =
      if c.lock_enabled
      then err wrong_option
      else if is_some c.locker
      then err wrong_option
      else if is_some c.session_locker
      then err wrong_option
      else if not (is_some l)
      then err wrong_option
      else ok (record c { lock_enabled = true; locker = l })

  abbrev pub no_settings : Settings W
  no_settings = record {
    table_name = [];
    store = none;
    verbose = false;
    exclude_paths = [];
    exclude_versions = [];
    registered = [];
    lock_enabled = false;
    session_locker = none;
    locker = none;
    disable_versioning = false;
    allow_missing = false;
    disable_global_registry = false;
    isolate_ddl = false;
    logger = false;
    slogger = false;
  }

  -- `cmp.Or(cfg.tableName, DefaultTablename)`
  unfoldable pub custom_store : Option (NamedStore W) → Result (NamedStore W)
  custom_store none = err wrong_option
  custom_store (some s) = ok s

  -- The checks of `NewProvider` after the options, and the store that it picks. The dialect
  -- `DialectCustom` is empty.
  unfoldable pub pick_store :
      (Str → Str → Result (NamedStore W)) → Str → Settings W → Result (NamedStore W)
  unfolding table_name_or_default custom_store
  pick_store new_store dialect c =
      if is_nil dialect && not (is_some c.store)
      then err wrong_option
      else if not (is_nil dialect) && is_some c.store
      then err wrong_option
      else if not (is_nil c.table_name) && is_some c.store
      then err wrong_option
      else if not (is_nil dialect)
      then new_store dialect (table_name_or_default c.table_name)
      else custom_store c.store

  abbrev pub global_migrations : VersionMap (Registration W) → Registered W
  global_migrations [] = []
  global_migrations ((v, r) ∷ rs) = (v, r.migration) ∷ global_migrations rs

  abbrev pub excludes_of : Settings W → Excludes
  excludes_of c = record {
    names = λ n. is_member n c.exclude_paths;
    versions = λ v. is_excluded v c.exclude_versions;
  }

  abbrev pub config_of : Settings W → Config W
  config_of c = record {
    lock_enabled = c.lock_enabled;
    session_locker = c.session_locker;
    locker = c.locker;
    disable_versioning = c.disable_versioning;
    allow_missing = c.allow_missing;
    isolate_ddl = c.isolate_ddl;
  }

  unfoldable pub provided :
      Driver W
      → NamedStore W
      → Settings W
      → Collect.Result (List (Migration W))
      → Result (Provider W)
  provided driver s c (Collect.err e) = err wrong_option
  provided driver s c (Collect.ok ms) =
      ok (record { driver = driver; store = s.store; cfg = config_of c; migrations = ms })

  -- `newProvider`. The errors of the collection of migrations are one error here.
  unfoldable pub build_provider :
      Driver W
      → (Str → Option (List Str))
      → VersionMap (Registration W)
      → Settings W
      → NamedStore W
      → Result (Provider W)
  unfolding provided provider_migrations is_member is_excluded
  build_provider driver glob global c s =
      if is_nil s.tablename
      then err wrong_option
      else provided driver s c (
          provider_migrations glob (excludes_of c) (global_migrations c.registered)
            c.disable_global_registry (global_migrations global))

module _ {W : Type 0} (base : Str → Str) where
  unfoldable pub add_go_migrations :
      List (Registration W) → VersionMap (Registration W) → Result (VersionMap (Registration W))
  add_go_migrations [] registered = ok registered
  add_go_migrations (r ∷ rs) registered =
      let rest = add_go_migrations rs (insert r.migration.version r registered) in
      if is_some (lookup r.migration.version registered)
      then err wrong_option
      else if is_some (check_go_migration base r)
      then err wrong_option
      else rest

  -- `ProviderOption.apply`
  unfoldable pub apply : ProviderOption W → Settings W → Result (Settings W)
  unfolding set_store set_session_locker set_locker mapped add_names add_versions add_go_migrations
  apply (with_store s) c = set_store s c
  apply (with_table_name name) c =
      if is_nil name then err wrong_option else ok (record c { table_name = name })
  apply (with_verbose b) c = ok (record c { verbose = b })
  apply (with_session_locker l) c = set_session_locker l c
  apply (with_locker l) c = set_locker l c
  apply (with_exclude_names ns) c =
      mapped (λ x. record c { exclude_paths = x }) (add_names ns c.exclude_paths)
  apply (with_exclude_versions vs) c =
      mapped (λ x. record c { exclude_versions = x }) (add_versions vs c.exclude_versions)
  apply (with_go_migrations ms) c =
      mapped (λ x. record c { registered = x }) (add_go_migrations ms c.registered)
  apply (with_disable_global_registry b) c = ok (record c { disable_global_registry = b })
  apply (with_allow_out_of_order b) c = ok (record c { allow_missing = b })
  apply (with_disable_versioning b) c = ok (record c { disable_versioning = b })
  apply (with_isolate_ddl b) c = ok (record c { isolate_ddl = b })
  apply (with_logger b) c =
      if not b
      then err wrong_option
      else if c.slogger
      then err wrong_option
      else ok (record c { logger = true })
  apply (with_slog b) c =
      if not b
      then err wrong_option
      else if c.logger
      then err wrong_option
      else ok (record c { slogger = true })

  -- The loop over the options.
  unfoldable pub apply_all : List (ProviderOption W) → Settings W → Result (Settings W)
  unfolding apply
  apply_all [] c = ok c
  apply_all (o ∷ os) c = elim (apply o c) [ ok d ↦ apply_all os d | err e ↦ err e ]

  -- `NewProvider` with a database that is not nil. The default logger is left out.
  unfoldable pub new_provider :
      (Str → Str → Result (NamedStore W))
      → Driver W
      → (Str → Option (List Str))
      → VersionMap (Registration W)
      → Str
      → List (ProviderOption W)
      → Result (Provider W)
  unfolding apply_all pick_store build_provider
  new_provider new_store driver glob global dialect os = elim (apply_all os no_settings) [
    | err e ↦ err e
    | ok c ↦ elim (pick_store new_store dialect c) [
      | err e ↦ err e
      | ok s ↦ build_provider driver glob global c s
    ]
  ]
