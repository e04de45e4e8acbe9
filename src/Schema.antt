-- ===== src/Schema.antt =====
-- internal/server/schema.go: the tables, a record for a row and a list for a table, in the order
-- of insertion. An instant is the number of seconds that its RFC 3339 text stands for; the texts
-- that the server writes are all in UTC, so SQL's order on them is the order of the numbers. A
-- column that may be NULL is an option. The flags are only ever 0 or 1.
pub mod Migrate
pub mod Old
pub mod Columns
pub mod Devices
pub mod Twice
pub mod Scope
use verstak_sync_server.Prelude.{ℕ, String, Bool, Option, List, [], ℤ}

pub record UserRow : Type 0 where
  pub id : String
  pub username : String
  pub email : String
  pub password_hash : String
  pub confirmed : Bool
  pub blocked : Bool
  pub last_seen : Option ℕ
  pub created_at : ℕ

pub record DeviceRow : Type 0 where
  pub id : String
  pub name : String
  pub api_key : String
  pub token_hash : Option String
  pub token_prefix : Option String
  pub token_suffix : Option String
  pub legacy_api_key : Bool
  pub user_id : Option String
  pub vault_id : Option String
  pub client_version : Option String
  pub last_ip : Option String
  pub last_seen : Option ℕ
  pub revoked_at : Option ℕ
  pub created_at : ℕ

pub record UserDeviceRow : Type 0 where
  pub user_id : String
  pub device_id : String

pub record OpRow : Type 0 where
  pub op_id : String
  pub server_sequence : Option ℕ
  pub user_id : String
  pub vault_id : String
  pub device_id : String
  pub entity_type : String
  pub entity_id : String
  pub op_type : String
  pub payload_json : String
  pub idempotency_key : String
  pub client_sequence : ℤ
  pub last_seen_server_seq : ℤ
  pub created_at : String
  pub pushed_at : ℕ

pub record TombstoneRow : Type 0 where
  pub user_id : String
  pub vault_id : String
  pub entity_type : String
  pub entity_id : String
  pub op_id : String
  pub deleted_at : ℕ

pub record IdempotencyRow : Type 0 where
  pub user_id : String
  pub vault_id : String
  pub idempotency_key : String
  pub response_json : String
  pub created_at : ℕ

pub record EmailTokenRow : Type 0 where
  pub token_hash : String
  pub user_id : String
  pub purpose : String
  pub expires_at : ℕ
  pub created_at : ℕ

pub record SessionRow : Type 0 where
  pub token_hash : String
  pub csrf_hash : String
  pub scope : String
  pub subject_id : String
  pub expires_at : ℕ
  pub created_at : ℕ
  pub last_seen : ℕ

-- `id` is AUTOINCREMENT: one more than any id that the table has ever held.
pub record RevisionRow : Type 0 where
  pub id : ℕ
  pub op_id : String
  pub device_id : String

pub record BlobRow : Type 0 where
  pub sha256 : String
  pub size : ℕ
  pub created_at : ℕ

pub record BlobRefRow : Type 0 where
  pub user_id : String
  pub vault_id : String
  pub sha256 : String
  pub size : ℕ
  pub created_at : ℕ
  pub last_accessed : ℕ

pub record AuditRow : Type 0 where
  pub event_type : String
  pub user_id : String
  pub device_id : String
  pub ip : String
  pub message : String
  pub created_at : ℕ

pub record SettingRow : Type 0 where
  pub key : String
  pub value : String

pub record Db : Type 0 where
  pub users : List UserRow
  pub devices : List DeviceRow
  pub user_devices : List UserDeviceRow
  pub ops : List OpRow
  pub tombstones : List TombstoneRow
  pub idempotency_keys : List IdempotencyRow
  pub email_tokens : List EmailTokenRow
  pub sessions : List SessionRow
  pub revisions : List RevisionRow
  pub last_revision : ℕ
  pub blobs : List BlobRow
  pub blob_refs : List BlobRefRow
  pub audit_log : List AuditRow
  pub smtp_config : List SettingRow

abbrev pub empty_db : Db
empty_db = record {
  users = [];
  devices = [];
  user_devices = [];
  ops = [];
  tombstones = [];
  idempotency_keys = [];
  email_tokens = [];
  sessions = [];
  revisions = [];
  last_revision = 0;
  blobs = [];
  blob_refs = [];
  audit_log = [];
  smtp_config = [];
}
