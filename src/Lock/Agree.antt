-- ===== src/Lock/Agree.antt =====
-- lock/internal/store: the store of mysql.go, whose operations are transactions of several
-- statements, against that of postgres.go, whose operations are one statement each.
use pressly_goose_patches.Base.{◌≡◌, ℕ, false, [], ◌∷◌, Option, none, some}
use pressly_goose_patches.VersionMap.{has}
use pressly_goose_patches.Lock.{Table, Server, Row}
use pressly_goose_patches.Lock.Postgres
use pressly_goose_patches.Lock.Mysql

-- A server with the table, no open transaction, and no time passing or failure ahead.
abbrev pub quiet : ℕ → Table → Server
quiet now t = record { table = some t; saved = none; now = now; events = [] }

-- The row, if there is one, was last written at another time.
abbrev pub IsOlder : ℕ → Option Row → Type 0
IsOlder now none = Unit
IsOlder now (some r) = Mysql.same_time r.updated_at (some now) ≡ false

-- The IDs of a table are distinct: `lock_id` is the primary key.
abbrev pub IsKeyed : Table → Type 0
IsKeyed [] = Unit
IsKeyed ((id, r) ∷ t) = (has id t ≡ false) × IsKeyed t
