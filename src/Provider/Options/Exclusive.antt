-- ===== src/Provider/Options/Exclusive.antt =====
-- The options of provider_options.go give a provider at most one locker, and the sessions of
-- provider_run.go rely on it: `initialize` keeps one cleanup function, which unlocks one locker.
use pressly_goose_patches.Base.{
  ◌≡◌, refl, Bool, true, false, ◌&&◌, List, [], ◌∷◌, Option, none, some, is_nil, arith, subst, ◌⊎◌,
  inl, inr, Option-cases, Bool-cases,
}
use pressly_goose_patches.VersionMap.{VersionMap}
use pressly_goose_patches.Text.{Str}
use pressly_goose_patches.Outcome.{Error, Result, ok, err, Result-cases, ◌>>=◌, >>=-eq-ok}
use pressly_goose_patches.Provider.{Locker, Driver, Provider, State, Migration}
use pressly_goose_patches.Provider.Session.{
  Cleanup, close, unlock_and_close, acquire_locks, acquire, acquired, cleaned_up,
}
use pressly_goose_patches.Registry.{Registration}
use pressly_goose_patches.Collect
use pressly_goose_patches.Collect.Merge.{provider_migrations}
use pressly_goose_patches.Provider.Options.{
  NamedStore, Settings, ProviderOption, with_store, with_table_name, with_verbose,
  with_session_locker, with_locker, with_exclude_names, with_exclude_versions, with_go_migrations,
  with_disable_global_registry, with_allow_out_of_order, with_disable_versioning, with_isolate_ddl,
  with_logger, with_slog, add_names, add_versions, add_go_migrations, mapped, set_store,
  set_session_locker, set_locker, apply, apply_all, no_settings, pick_store, excludes_of,
  global_migrations, config_of, provided, build_provider, new_provider,
}

module _ {W : Type 0} where
  -- No locker and no locking, or locking with exactly one locker.
  abbrev pub IsExclusive : Bool → Option (Locker W) → Option (Locker W) → Type 0
  IsExclusive enabled session_locker locker =
      ((enabled ≡ false) × (session_locker ≡ none) × (locker ≡ none))
      ⊎ (((l : Locker W) × (enabled ≡ true) × (session_locker ≡ some l) × (locker ≡ none))
          ⊎ ((l : Locker W) × (enabled ≡ true) × (session_locker ≡ none) × (locker ≡ some l)))

  abbrev pub AreExclusive : Settings W → Type 0
  AreExclusive c = IsExclusive c.lock_enabled c.session_locker c.locker

  mapped-AreExclusive :
      {A : Type 0} (f : A → Settings W) (r : Result A) (d : Settings W)
      → ((a : A) → AreExclusive (f a))
      → mapped f r ≡ ok d
      → AreExclusive d
  unfolding mapped
  mapped-AreExclusive f (ok a) d k h = let e : f a ≡ d = ground arith in subst AreExclusive e (k a)
  mapped-AreExclusive f (err e) d k h = ground arith

  moved : (c d : Settings W) → Result.ok c ≡ Result.ok d → AreExclusive c → AreExclusive d
  moved c d h v = let e : c ≡ d = ground arith in subst AreExclusive e v

  store-AreExclusive :
      (o : Option (NamedStore W)) (c d : Settings W)
      → set_store o c ≡ ok d
      → AreExclusive c
      → AreExclusive d
  unfolding set_store
  store-AreExclusive none c d h v = ground arith
  store-AreExclusive (some s) c d h v = ground arith

  session-AreExclusive :
      (o : Option (Locker W)) (c d : Settings W)
      → set_session_locker o c ≡ ok d
      → AreExclusive c
      → AreExclusive d
  unfolding set_session_locker
  session-AreExclusive none c d h v = ground arith
  session-AreExclusive (some l) c d h v =
      let a : d.lock_enabled ≡ true = ground arith in
      let b : d.session_locker ≡ some l = ground arith in
      let e : d.locker ≡ none = ground arith in inr (inl (l, a, b, e))

  locker-AreExclusive :
      (o : Option (Locker W)) (c d : Settings W)
      → set_locker o c ≡ ok d
      → AreExclusive c
      → AreExclusive d
  unfolding set_locker
  locker-AreExclusive none c d h v = ground arith
  locker-AreExclusive (some l) c d h v =
      let a : d.lock_enabled ≡ true = ground arith in
      let b : d.session_locker ≡ none = ground arith in
      let e : d.locker ≡ some l = ground arith in inr (inr (l, a, b, e))

  apply-AreExclusive :
      (base : Str → Str) (o : ProviderOption W) (c d : Settings W)
      → apply base o c ≡ ok d
      → AreExclusive c
      → AreExclusive d
  unfolding apply
  apply-AreExclusive base (with_store s) c d h v = store-AreExclusive s c d h v
  apply-AreExclusive base (with_table_name n) c d h v = ground arith
  apply-AreExclusive base (with_verbose b) c d h v = ground arith
  apply-AreExclusive base (with_session_locker l) c d h v = session-AreExclusive l c d h v
  apply-AreExclusive base (with_locker l) c d h v = locker-AreExclusive l c d h v
  apply-AreExclusive base (with_exclude_names ns) c d h v =
      mapped-AreExclusive (λ x. record c { exclude_paths = x }) (add_names ns c.exclude_paths) d
        (λ _. v) h
  apply-AreExclusive base (with_exclude_versions vs) c d h v =
      mapped-AreExclusive (λ x. record c { exclude_versions = x })
        (add_versions vs c.exclude_versions) d (λ _. v) h
  apply-AreExclusive base (with_go_migrations ms) c d h v =
      mapped-AreExclusive (λ x. record c { registered = x })
        (add_go_migrations base ms c.registered) d (λ _. v) h
  apply-AreExclusive base (with_disable_global_registry b) c d h v = moved _ d h v
  apply-AreExclusive base (with_allow_out_of_order b) c d h v = moved _ d h v
  apply-AreExclusive base (with_disable_versioning b) c d h v = moved _ d h v
  apply-AreExclusive base (with_isolate_ddl b) c d h v = moved _ d h v
  apply-AreExclusive base (with_logger b) c d h v = ground arith
  apply-AreExclusive base (with_slog b) c d h v = ground arith

  apply_all-AreExclusive :
      (base : Str → Str) (os : List (ProviderOption W)) (c d : Settings W)
      → apply_all base os c ≡ ok d
      → AreExclusive c
      → AreExclusive d
  unfolding apply_all
  apply_all-AreExclusive base [] c d h v = moved c d h v
  apply_all-AreExclusive base (o ∷ os) c d h v = elim (Result-cases (apply base o c)) [
    | inl (b, e) ↦
        apply_all-AreExclusive base os b d (ground arith) (apply-AreExclusive base o c b e v)
    | inr (x, e) ↦ ground arith
  ]

  provided-cfg :
      (driver : Driver W) (s : NamedStore W) (c : Settings W)
      (r : Collect.Result (List (Migration W))) (p : Provider W)
      → provided driver s c r ≡ ok p
      → config_of c ≡ p.cfg
  unfolding provided
  provided-cfg driver s c (Collect.err e) p h = ground arith
  provided-cfg driver s c (Collect.ok ms) p h = ground arith

  build-cfg :
      (driver : Driver W) (glob : Str → Option (List Str)) (global : VersionMap (Registration W))
      (c : Settings W) (s : NamedStore W) (p : Provider W)
      → build_provider driver glob global c s ≡ ok p
      → config_of c ≡ p.cfg
  unfolding build_provider
  build-cfg driver glob global c s p h = elim (Bool-cases (is_nil s.tablename)) [
    | inl e ↦ ground arith
    | inr e ↦
        provided-cfg driver s c
          (provider_migrations glob (excludes_of c) (global_migrations c.registered)
            c.disable_global_registry (global_migrations global))
          p (ground arith)
  ]

  module _ (base : Str → Str) (new_store : Str → Str → Result (NamedStore W)) (driver : Driver W)
      (glob : Str → Option (List Str)) (global : VersionMap (Registration W)) (dialect : Str) where
    new_provider-IsExclusive :
        (os : List (ProviderOption W)) (p : Provider W)
        → new_provider base new_store driver glob global dialect os ≡ ok p
        → IsExclusive p.cfg.lock_enabled p.cfg.session_locker p.cfg.locker
    unfolding new_provider build_provider
    new_provider-IsExclusive os p h = elim (Result-cases (apply_all base os no_settings)) [
      | inl (c, e) ↦
          let v = apply_all-AreExclusive base os no_settings c e (inl (refl, refl, refl)) in
          elim (Result-cases (pick_store new_store dialect c)) [
            | inl (s, f) ↦
                let g = build-cfg driver glob global c s p (ground arith) in
                subst (λ g. IsExclusive g.lock_enabled g.session_locker g.locker) g v
            | inr (x, f) ↦ ground arith
          ]
      | inr (x, e) ↦ ground arith
    ]

module _ {W : Type 0} (p : Provider W) where
  -- What `initialize` has locked, and what its cleanup function is to unlock.
  abbrev pub Took : Bool → Cleanup W → State W → State W → Type 0
  Took wanted cleanup s u =
      ((wanted ≡ false) × (cleanup ≡ close p) × (u ≡ s))
      ⊎ ((l : Locker W) × (wanted ≡ true)
          × ((p.cfg.session_locker ≡ some l) ⊎ (p.cfg.locker ≡ some l))
          × (cleanup ≡ unlock_and_close p l)
          × ((l.lock s.world).0 ≡ none)
          × (u ≡ record s { world = (l.lock s.world).1 }))

  acquired-ok :
      (l : Locker W) (e : Option Error) (s u : State W) (cleanup : Cleanup W)
      → acquired p l (close p) e s ≡ (ok cleanup, u)
      → (e ≡ none) × (cleanup ≡ unlock_and_close p l) × (u ≡ s)
  unfolding acquired cleaned_up
  acquired-ok l none s u cleanup h = (refl, ground arith, ground arith)
  acquired-ok l (some x) s u cleanup h =
      elim (Option-cases (p.driver.append_errors (some x) (close p s).0)) [
        | inl n ↦ ground arith
        | inr (y, n) ↦ ground arith
      ]

  acquire-Took :
      (l : Locker W) (s u : State W) (cleanup : Cleanup W)
      → acquire p (some l) (close p) s ≡ (ok cleanup, u)
      → ((l.lock s.world).0 ≡ none)
        × (cleanup ≡ unlock_and_close p l)
        × (u ≡ record s { world = (l.lock s.world).1 })
  unfolding acquire
  acquire-Took l s u cleanup h =
      acquired-ok l (l.lock s.world).0 (record s { world = (l.lock s.world).1 }) u cleanup h

  -- The two lockers in turn, where there is exactly one of them.
  in_turn :
      (a b : Option (Locker W)) (s u : State W) (cleanup : Cleanup W)
      → IsExclusive true a b
      → (acquire p a (close p) >>= acquire p b) s ≡ (ok cleanup, u)
      → (l : Locker W) × ((a ≡ some l) ⊎ (b ≡ some l))
        × (acquire p (some l) (close p) s ≡ (ok cleanup, u))
  unfolding acquire
  in_turn (some l) none s u cleanup x h =
      let (c, t, e, f) = >>=-eq-ok (acquire p (some l) (close p)) (acquire p none) s h in
      (l, inl refl, ground arith)
  in_turn none (some l) s u cleanup x h = (l, inr refl, h)
  in_turn none none s u cleanup x h = ground arith
  in_turn (some l) (some k) s u cleanup x h = ground arith

  acquire_locks-Took :
      (use_locker : Bool) (s u : State W) (cleanup : Cleanup W)
      → IsExclusive p.cfg.lock_enabled p.cfg.session_locker p.cfg.locker
      → acquire_locks p use_locker (close p) s ≡ (ok cleanup, u)
      → Took (use_locker && p.cfg.lock_enabled) cleanup s u
  unfolding acquire_locks
  acquire_locks-Took use_locker s u cleanup x h =
      elim (Bool-cases (use_locker && p.cfg.lock_enabled)) [
        | inl w ↦
            let n : p.cfg.lock_enabled ≡ true = ground arith in
            let y = subst (λ b. IsExclusive b p.cfg.session_locker p.cfg.locker) n x in
            let g = (acquire p p.cfg.session_locker (close p) >>= acquire p p.cfg.locker) in
            let k : g s ≡ (ok cleanup, u) = ground arith in
            let (l, o, e) = in_turn p.cfg.session_locker p.cfg.locker s u cleanup y k in
            let (a, b, c) = acquire-Took l s u cleanup e in inr (l, w, o, b, a, c)
        | inr w ↦ inl (w, ground arith, ground arith)
      ]

-- A provider that `NewProvider` returns has no locker where locking is not enabled, and exactly one where
-- it is, a session locker or another one, whatever its options. And when one of its sessions has
-- acquired its locks, either none was wanted and the cleanup function only closes the
-- connection, or one locker of the provider was locked without an error, exactly once, and the cleanup
-- function unlocks that locker.
pub new_provider-Took :
    {W : Type 0} (base : Str → Str) (new_store : Str → Str → Result (NamedStore W))
    (driver : Driver W) (glob : Str → Option (List Str)) (global : VersionMap (Registration W))
    (dialect : Str) (os : List (ProviderOption W)) (p : Provider W) (use_locker : Bool)
    (s u : State W) (cleanup : Cleanup W)
    → new_provider base new_store driver glob global dialect os ≡ ok p
    → acquire_locks p use_locker (close p) s ≡ (ok cleanup, u)
    → IsExclusive p.cfg.lock_enabled p.cfg.session_locker p.cfg.locker
      × Took p (use_locker && p.cfg.lock_enabled) cleanup s u
new_provider-Took base new_store driver glob global dialect os p use_locker s u cleanup h k =
    let x = new_provider-IsExclusive base new_store driver glob global dialect os p h in
    (x, acquire_locks-Took p use_locker s u cleanup x k)
