-- ===== src/Health.antt =====
-- internal/server/health.go: whether the server is well, and the counters of the administrator.
-- What the file system says is given; a sum of sizes is below 2 ^ 63, as a disk is.
use verstak_sync_server.Prelude.{
  ℕ, ◌+◌, String, Bool, true, false, not, Option, none, some, List, [], ◌∷◌, map, ◌==◌, ◌&&◌,
  if◌then◌else◌, ltb, leb, any, select, length, has_prefix,
}
use verstak_sync_server.Schema.{
  Db, UserRow, DeviceRow, OpRow, SessionRow, EmailTokenRow, BlobRow, BlobRefRow, AuditRow,
}
use verstak_sync_server.Server.World.{stamp}
use verstak_sync_server.Server.Reply.{internal_error}
use verstak_sync_server.Server.Action.{
  M, ◌>>=◌, ◌>>◌, pure, gets, or_stop, query_all, exec_all, tick,
}
use verstak_sync_server.Device.Auth.{is_some, text_or_empty}
use verstak_sync_server.Device.Credentials.{concat}
use verstak_sync_server.Admin.Views.{distinct}

pub record HealthStatus : Type 0 where
  pub status : String
  pub database_reachable : Bool
  pub blob_storage_writable : Bool
  pub schema_version : ℕ

-- blobStorageWritable: the probe is created, closed and removed.
abbrev pub blob_storage_writable : String → Bool → Bool → Bool → Bool
blob_storage_writable dir created closed removed =
    if dir == "" then false else created && closed && removed

-- The two questions to the database; none if one fails.
abbrev pub database_version : ℕ → M (Option ℕ)
database_version version = do
  unreachable ← tick
  if unreachable then pure none else do broken ← tick; pure (if broken then none else some version)

abbrev pub health_of : Option ℕ → Bool → HealthStatus
health_of none writable = record {
  status = "degraded";
  database_reachable = false;
  blob_storage_writable = writable;
  schema_version = 0;
}
health_of (some version) writable = record {
  status = if writable then "ok" else "degraded";
  database_reachable = true;
  blob_storage_writable = writable;
  schema_version = version;
}

-- healthStatus; `version` is what PRAGMA user_version answers.
unfoldable pub health_status : ℕ → Bool → M HealthStatus
health_status version writable = do
  found ← database_version version
  pure (health_of found writable)

-- The blobs directory and the database's file: none is an error that ends the statistics, and a
-- directory that is not there is empty.
pub record Disk : Type 0 where
  pub database_size : ℕ
  pub blob_sizes : Option (List ℕ)
  pub blob_names : Option (List String)

pub record ServerStats : Type 0 where
  pub users : ℕ
  pub active_users : ℕ
  pub blocked_users : ℕ
  pub unconfirmed_users : ℕ
  pub active_devices : ℕ
  pub revoked_devices : ℕ
  pub vaults : ℕ
  pub operations : ℕ
  pub operations_24h : ℕ
  pub blobs : ℕ
  pub blob_references : ℕ
  pub orphan_blobs : ℕ
  pub temp_uploads : ℕ
  pub expired_sessions : ℕ
  pub expired_tokens : ℕ
  pub audit_events : ℕ
  pub database_bytes : ℕ
  pub blob_bytes : ℕ
  pub last_sync_at : Option ℕ
  pub last_cleanup_at : Option ℕ

abbrev pub count {ℓ} : {A : Type ℓ} → (A → Bool) → List A → ℕ
count p xs = length (select p xs)

abbrev pub scope_key : DeviceRow → String
scope_key d = concat (text_or_empty d.user_id) (concat ":" (text_or_empty d.vault_id))

abbrev pub has_scope : DeviceRow → Bool
has_scope d = not (text_or_empty d.user_id == "") && not (text_or_empty d.vault_id == "")

abbrev pub is_orphan : Db → BlobRow → Bool
is_orphan db b = not (any (λ (r : BlobRefRow). r.sha256 == b.sha256) db.blob_refs)

-- MAX, and none for no row.
abbrev pub latest : List ℕ → Option ℕ
latest [] = none
latest (n ∷ ns) = elim (latest ns) [ none ↦ some n | some m ↦ some (if ltb m n then n else m) ]

abbrev pub seen_at : List DeviceRow → List ℕ
seen_at [] = []
seen_at (d ∷ ds) = elim d.last_seen [ none ↦ seen_at ds | some n ↦ n ∷ seen_at ds ]

abbrev pub cleanups : List AuditRow → List ℕ
cleanups rows =
    map (λ (a : AuditRow). a.created_at)
      (select (λ (a : AuditRow). a.event_type == "retention_cleanup") rows)

abbrev pub sum : List ℕ → ℕ
sum [] = 0
sum (n ∷ ns) = n + sum ns

-- The queries of Stats in one; `is_recent` is SQLite's created_at >= the text of 24 hours ago, with
-- the created_at that the client has sent.
unfoldable pub stats_of : (String → Bool) → ℕ → Db → ℕ → List ℕ → List String → ServerStats
stats_of is_recent now db database_size sizes names = record {
  users = length db.users;
  active_users = count (λ (u : UserRow). u.confirmed && not u.blocked) db.users;
  blocked_users = count (λ (u : UserRow). u.blocked) db.users;
  unconfirmed_users = count (λ (u : UserRow). not u.confirmed) db.users;
  active_devices = count (λ (d : DeviceRow). not (is_some d.revoked_at)) db.devices;
  revoked_devices = count (λ (d : DeviceRow). is_some d.revoked_at) db.devices;
  vaults = distinct [] (map scope_key (select has_scope db.devices));
  operations = length db.ops;
  operations_24h = count (λ (o : OpRow). is_recent o.created_at) db.ops;
  blobs = length db.blobs;
  blob_references = length db.blob_refs;
  orphan_blobs = count (is_orphan db) db.blobs;
  temp_uploads = count (λ name. has_prefix name ".upload-") names;
  expired_sessions = count (λ (s : SessionRow). leb s.expires_at now) db.sessions;
  expired_tokens = count (λ (t : EmailTokenRow). leb t.expires_at now) db.email_tokens;
  audit_events = length db.audit_log;
  database_bytes = database_size;
  blob_bytes = sum sizes;
  last_sync_at = latest (seen_at db.devices);
  last_cleanup_at = latest (cleanups db.audit_log);
}

abbrev pub same : Db → Db
same db = db

-- The sixteen queries before the last.
abbrev pub earlier_queries : M (Unit {0})
earlier_queries = exec_all (
    same ∷ same ∷ same ∷ same ∷ same ∷ same ∷ same ∷ same ∷ same ∷ same ∷ same ∷ same ∷ same ∷ same
    ∷ same ∷ same ∷ [])

-- Stats: any query that fails ends it.
unfoldable pub stats : (String → Bool) → Disk → M ServerStats
unfolding stats_of
stats is_recent disk = do
  now ← gets (λ w. stamp w.now)
  earlier_queries
  db ← query_all (λ db. db)
  sizes ← or_stop disk.blob_sizes internal_error
  names ← or_stop disk.blob_names internal_error
  pure (stats_of is_recent now db disk.database_size sizes names)
