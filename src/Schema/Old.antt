-- ===== src/Schema/Old.antt =====
-- internal/server/schema.go: the tables of an older server. A table that the migration rebuilds has
-- one of two shapes, which the source tells apart by the columns and the primary key. A NULL in a
-- column of server_ops is the empty text, since the source treats them alike.
use verstak_sync_server.Prelude.{ℕ, String, List, [], ◌∷◌, ◌++◌, map, ◌==◌, if◌then◌else◌, any}
use verstak_sync_server.Schema.{
  DeviceRow, UserDeviceRow, OpRow, TombstoneRow, IdempotencyRow, EmailTokenRow,
}

-- A table with the names of its columns. The rows hold anything in a column that is not there.
pub record Table {ℓ} (R : Type ℓ) : Type ℓ where
  pub columns : List String
  pub rows : List R

pub record OldEmailToken : Type 0 where
  pub token : String
  pub user_id : String
  pub purpose : String
  pub expires_at : ℕ
  pub created_at : ℕ

pub record OldTombstone : Type 0 where
  pub entity_type : String
  pub entity_id : String
  pub op_id : String
  pub deleted_at : ℕ

pub data EmailTokens : Type 0 where
  by_token : List OldEmailToken → EmailTokens
  by_hash : List EmailTokenRow → EmailTokens

pub data Tombstones : Type 0 where
  unscoped : List OldTombstone → Tombstones
  scoped : List TombstoneRow → Tombstones

-- Of the answers that an old server recorded only their number is kept here.
pub data Keys : Type 0 where
  global : ℕ → Keys
  scoped : List IdempotencyRow → Keys

pub record OldDb : Type 0 where
  pub devices : Table DeviceRow
  pub user_devices : List UserDeviceRow
  pub ops : Table OpRow
  pub email_tokens : EmailTokens
  pub tombstones : Tombstones
  pub idempotency_keys : Keys
  pub user_version : ℕ

abbrev pub schema_version : ℕ
schema_version = 2

-- ensureSQLiteColumn: a new column has the default in every row.
unfoldable pub ensure_column {ℓ} : {R : Type ℓ} → String → (R → R) → Table R → Table R
ensure_column name reset t =
    if any (λ c. c == name) t.columns
    then t
    else record { columns = t.columns ++ name ∷ []; rows = map reset t.rows }
