-- ===== src/Lock/Options.antt =====
-- lock/table_locker_options.go and lock/internal/table/config.go, and the configurations of
-- `NewPostgresTableLocker` and `NewMySQLTableLocker`. Durations are nanoseconds.
use pressly_goose_patches.Base.{
  ◌≡◌, refl, ℕ, ◌*◌, ◌<◌, Bool, false, List, [], ◌∷◌, Option, none, if◌then◌else◌, arith, subst,
  inl, inr, is_nil, ◌==◌, ◌||◌,
}
use pressly_goose_patches.Int.{ℤ, pos, leb_ℤ, ◌<ℤ◌}
use pressly_goose_patches.Text.{Str, codes}
use pressly_goose_patches.Outcome.{Error, external, Result, ok, err, Result-cases}

pub record ProbeConfig : Type 0 where
  pub interval_duration : ℤ
  pub failure_threshold : ℕ

-- `table.Config` without the logger.
pub record TableConfig : Type 0 where
  pub table_name : Str
  pub lock_id : ℤ
  pub lease_duration : ℤ
  pub heartbeat_interval : ℤ
  pub lock_timeout : ProbeConfig
  pub unlock_timeout : ProbeConfig
  pub retry_policy : Option (Error → Bool)

-- The options, by the names of the functions that make them.
pub data TableLockerOption : Type 0 where
  with_table_name : Str → TableLockerOption
  with_table_lock_id with_table_lease_duration with_table_heartbeat_interval : ℤ → TableLockerOption
  with_table_lock_timeout with_table_unlock_timeout : ℤ → ℕ → TableLockerOption
  with_table_logger : TableLockerOption
  with_table_retry_policy : Option (Error → Bool) → TableLockerOption

abbrev pub invalid : Error
invalid = external (codes "invalid option")

-- The two checks of a timeout.
unfoldable pub probe_of : ℤ → ℕ → Result ProbeConfig
probe_of interval threshold =
    if leb_ℤ interval (pos 0) || threshold == 0
    then err invalid
    else ok (record { interval_duration = interval; failure_threshold = threshold })

with_probe : Result ProbeConfig → (ProbeConfig → TableConfig) → Result TableConfig
with_probe (ok p) f = ok (f p)
with_probe (err e) f = err e

-- `TableLockerOption.apply`
unfoldable pub apply : TableLockerOption → TableConfig → Result TableConfig
unfolding probe_of with_probe
apply (with_table_name name) c =
    if is_nil name then err invalid else ok (record c { table_name = name })
apply (with_table_lock_id id) c =
    if leb_ℤ id (pos 0) then err invalid else ok (record c { lock_id = id })
apply (with_table_lease_duration d) c =
    if leb_ℤ d (pos 0) then err invalid else ok (record c { lease_duration = d })
apply (with_table_heartbeat_interval d) c =
    if leb_ℤ d (pos 0) then err invalid else ok (record c { heartbeat_interval = d })
apply (with_table_lock_timeout d n) c =
    with_probe (probe_of d n) (λ p. record c { lock_timeout = p })
apply (with_table_unlock_timeout d n) c =
    with_probe (probe_of d n) (λ p. record c { unlock_timeout = p })
apply with_table_logger c = ok c
apply (with_table_retry_policy f) c = ok (record c { retry_policy = f })

-- The loop over the options, which stops at the first error.
unfoldable pub apply_all : List TableLockerOption → TableConfig → Result TableConfig
unfolding apply
apply_all [] c = ok c
apply_all (o ∷ os) c = elim (apply o c) [ ok d ↦ apply_all os d | err e ↦ err e ]

abbrev pub second : ℕ
second = 1000000000

-- The defaults of `NewPostgresTableLocker` and of `NewMySQLTableLocker`, which are the same.
abbrev pub default_config : TableConfig
default_config = record {
  table_name = codes "goose_lock";
  lock_id = pos 4097083626;
  lease_duration = pos (30 * second);
  heartbeat_interval = pos (5 * second);
  lock_timeout = record { interval_duration = pos (5 * second); failure_threshold = 60 };
  unlock_timeout = record { interval_duration = pos (2 * second); failure_threshold = 30 };
  retry_policy = none;
}

unfoldable pub table_locker_config : List TableLockerOption → Result TableConfig
unfolding apply_all
table_locker_config os = apply_all os default_config

-- `NewPostgres` and `NewMySQL`, which check the table's name again.
unfoldable pub new_store : TableConfig → Result TableConfig
new_store c = if is_nil c.table_name then err invalid else ok c

-- The configuration that `table.New` is given.
unfoldable pub new_table_locker : List TableLockerOption → Result TableConfig
unfolding table_locker_config new_store
new_table_locker os = elim (table_locker_config os) [ ok c ↦ new_store c | err e ↦ err e ]

-- What every configuration of a table locker is to be.
pub record IsValid (c : TableConfig) : Type 0 where
  pub name : is_nil c.table_name ≡ false
  pub id : pos 0 <ℤ c.lock_id
  pub lease : pos 0 <ℤ c.lease_duration
  pub heartbeat : pos 0 <ℤ c.heartbeat_interval
  pub lock : (pos 0 <ℤ c.lock_timeout.interval_duration) × (0 < c.lock_timeout.failure_threshold)
  pub unlock :
      (pos 0 <ℤ c.unlock_timeout.interval_duration) × (0 < c.unlock_timeout.failure_threshold)

apply-IsValid :
    (o : TableLockerOption) (c d : TableConfig) → apply o c ≡ ok d → IsValid c → IsValid d
unfolding apply leb_ℤ with_probe probe_of
apply-IsValid (with_table_name x) c d h v = ground arith
apply-IsValid (with_table_lock_id x) c d h v = ground arith
apply-IsValid (with_table_lease_duration x) c d h v = ground arith
apply-IsValid (with_table_heartbeat_interval x) c d h v = ground arith
apply-IsValid (with_table_lock_timeout x n) c d h v = ground arith
apply-IsValid (with_table_unlock_timeout x n) c d h v = ground arith
apply-IsValid with_table_logger c d h v = ground arith
apply-IsValid (with_table_retry_policy f) c d h v = ground arith

apply_all-IsValid :
    (os : List TableLockerOption) (c d : TableConfig)
    → apply_all os c ≡ ok d
    → IsValid c
    → IsValid d
unfolding apply_all
apply_all-IsValid [] c d h v = subst IsValid (ground arith) v
apply_all-IsValid (o ∷ os) c d h v = elim (Result-cases (apply o c)) [
  | inl (b, e) ↦ apply_all-IsValid os b d (ground arith) (apply-IsValid o c b e v)
  | inr (x, e) ↦ ground arith
]

-- The configuration of a table locker, if its options are accepted, has a table name, and a positive
-- lock ID, lease duration, heartbeat interval and positive timeouts and thresholds, and the
-- constructor does not fail after the options are accepted.
pub new_table_locker-IsValid :
    (os : List TableLockerOption) (c : TableConfig)
    → table_locker_config os ≡ ok c
    → IsValid c × (new_table_locker os ≡ ok c)
unfolding table_locker_config new_table_locker new_store
new_table_locker-IsValid os c h =
    let v : IsValid c = apply_all-IsValid os default_config c h (record {
      name = refl;
      id = omega arith;
      lease = omega arith;
      heartbeat = omega arith;
      lock = (omega arith, omega arith);
      unlock = (omega arith, omega arith);
    }) in
    let n = v.name in (v, ground arith)
