-- ===== src/Schema/Migrate.antt =====
-- internal/server/schema.go: the tables of an older server are brought to the present form, in one
-- transaction when the program starts. What is modelled is the run in which the database does not
-- fail; any failure ends the program and undoes the transaction.
use verstak_sync_server.Prelude.{
  String, Bool, true, false, not, Option, none, some, List, [], ◌∷◌, ◌++◌, map, ◌==◌, ◌&&◌,
  if◌then◌else◌, find, any, select,
}
use verstak_sync_server.Schema.{DeviceRow, UserDeviceRow, OpRow, TombstoneRow, EmailTokenRow}
use verstak_sync_server.Server.World.{Host}
use verstak_sync_server.Device.Credentials.{concat}
use verstak_sync_server.Schema.Old.{
  Table, OldEmailToken, OldTombstone, EmailTokens, by_token, Tombstones, unscoped, Keys, global,
  OldDb, schema_version, ensure_column, by_hash, scoped,
}

abbrev pub is_empty : Option String → Bool
is_empty none = true
is_empty (some s) = s == ""

-- The user of the only link, where there is exactly one.
abbrev pub only_user : List UserDeviceRow → Option String → Option String
only_user (l ∷ []) owner = if is_empty owner then some l.user_id else owner
only_user [] owner = owner
only_user (l ∷ k ∷ ls) owner = owner

abbrev pub backfill_owner : List UserDeviceRow → DeviceRow → DeviceRow
backfill_owner links d = record d {
  user_id = only_user (select (λ (l : UserDeviceRow). l.device_id == d.id) links) d.user_id;
}

abbrev pub map_rows {ℓ} : {R : Type ℓ} → (R → R) → Table R → Table R
map_rows f t = record t { rows = map f t.rows }

-- backfillDeviceOwners
abbrev pub backfill_device_owners : OldDb → OldDb
backfill_device_owners db = record db {
  devices = map_rows (backfill_owner db.user_devices) db.devices;
}

-- `is_disabled` is SQLite's api_key LIKE 'disabled:%'.
abbrev pub mark_legacy : (String → Bool) → DeviceRow → DeviceRow
mark_legacy is_disabled d = record d {
  legacy_api_key =
      if not d.legacy_api_key && not (is_disabled d.api_key) then true else d.legacy_api_key;
}

-- migrateLegacyDeviceCredentials
abbrev pub migrate_legacy_device_credentials : (String → Bool) → OldDb → OldDb
migrate_legacy_device_credentials is_disabled db = record db {
  devices =
      map_rows (mark_legacy is_disabled)
        (ensure_column "legacy_api_key" (λ d. record d { legacy_api_key = false }) db.devices);
}

abbrev pub hash_token : Host → OldEmailToken → EmailTokenRow
hash_token host t = record {
  token_hash = host.sha256_hex t.token;
  user_id = t.user_id;
  purpose = t.purpose;
  expires_at = t.expires_at;
  created_at = t.created_at;
}

-- The loop over the old tokens; the hash is the primary key of the new table.
abbrev pub insert_tokens :
    Host → List OldEmailToken → List EmailTokenRow → Option (List EmailTokenRow)
insert_tokens host [] rows = some rows
insert_tokens host (t ∷ ts) rows =
    let rest = insert_tokens host ts (rows ++ hash_token host t ∷ []) in
    if any (λ (r : EmailTokenRow). r.token_hash == host.sha256_hex t.token) rows then none else rest

abbrev pub hashed : Option (List EmailTokenRow) → Option EmailTokens
hashed none = none
hashed (some rows) = some (by_hash rows)

-- migrateEmailTokenHashes
abbrev pub migrate_email_token_hashes : Host → EmailTokens → Option EmailTokens
migrate_email_token_hashes host (by_hash rows) = some (by_hash rows)
migrate_email_token_hashes host (by_token ts) = hashed (insert_tokens host ts [])

-- The columns of the device that sent an operation, the empty text where there is none.
abbrev pub text_of : Option String → String
text_of none = ""
text_of (some s) = s

abbrev pub device_user : Option DeviceRow → String
device_user none = ""
device_user (some d) = text_of d.user_id

abbrev pub device_vault : Option DeviceRow → String
device_vault none = ""
device_vault (some d) = text_of d.vault_id

abbrev pub sender : List DeviceRow → OpRow → Option DeviceRow
sender devices o = find (λ (d : DeviceRow). d.id == o.device_id) devices

abbrev pub backfill_user : List DeviceRow → OpRow → OpRow
backfill_user devices o = record o {
  user_id = if o.user_id == "" then device_user (sender devices o) else o.user_id;
}

abbrev pub vault_or_legacy : String → String → String
vault_or_legacy user vault = if vault == "" then concat "legacy:" user else vault

abbrev pub backfill_vault : List DeviceRow → OpRow → OpRow
backfill_vault devices o = record o {
  vault_id =
      if (o.vault_id == "") && not (o.user_id == "")
      then vault_or_legacy o.user_id (device_vault (sender devices o))
      else o.vault_id;
}

-- backfillOperationScope
abbrev pub backfill_operation_scope : OldDb → OldDb
backfill_operation_scope db = record db {
  ops = map_rows (backfill_vault db.devices.rows) (map_rows (backfill_user db.devices.rows) db.ops);
}

-- The row of a tombstone whose operation is known and scoped.
abbrev pub scope_tombstone : OldTombstone → Option OpRow → List TombstoneRow
scope_tombstone t none = []
scope_tombstone t (some o) =
    if not (o.user_id == "") && not (o.vault_id == "")
    then record {
      user_id = o.user_id;
      vault_id = o.vault_id;
      entity_type = t.entity_type;
      entity_id = t.entity_id;
      op_id = t.op_id;
      deleted_at = t.deleted_at;
    }
      ∷ []
    else []

abbrev pub same_entity : TombstoneRow → TombstoneRow → Bool
same_entity t u =
    (u.user_id == t.user_id)
    && (u.vault_id == t.vault_id)
    && (u.entity_type == t.entity_type)
    && (u.entity_id == t.entity_id)

-- INSERT OR IGNORE ... SELECT: the first row of an entity stays.
abbrev pub insert_tombstones : List TombstoneRow → List TombstoneRow → List TombstoneRow
insert_tombstones [] rows = rows
insert_tombstones (t ∷ ts) rows =
    insert_tombstones ts (if any (same_entity t) rows then rows else rows ++ t ∷ [])

abbrev pub joined : List OpRow → List OldTombstone → List TombstoneRow
joined ops [] = []
joined ops (t ∷ ts) =
    scope_tombstone t (find (λ (o : OpRow). o.op_id == t.op_id) ops) ++ joined ops ts

-- migrateTombstoneScope
abbrev pub migrate_tombstone_scope : List OpRow → Tombstones → Tombstones
migrate_tombstone_scope ops (scoped rows) = scoped rows
migrate_tombstone_scope ops (unscoped ts) = scoped (insert_tombstones (joined ops ts) [])

-- migrateIdempotencyScope
abbrev pub migrate_idempotency_scope : Keys → Keys
migrate_idempotency_scope (Keys.scoped rows) = Keys.scoped rows
migrate_idempotency_scope (global n) = Keys.scoped []

abbrev pub ensure_scope_columns : OldDb → OldDb
ensure_scope_columns db = record db {
  devices =
      ensure_column "vault_id" (λ (d : DeviceRow). record d { vault_id = none })
        (ensure_column "user_id" (λ (d : DeviceRow). record d { user_id = none }) db.devices);
  ops =
      ensure_column "vault_id" (λ (o : OpRow). record o { vault_id = "" })
        (ensure_column "user_id" (λ (o : OpRow). record o { user_id = "" }) db.ops);
}

abbrev pub scope_tables : OldDb → OldDb
scope_tables db = record db {
  tombstones = migrate_tombstone_scope db.ops.rows db.tombstones;
  idempotency_keys = migrate_idempotency_scope db.idempotency_keys;
  user_version = schema_version;
}

-- The steps after the tokens have been hashed.
abbrev pub finish_migration : OldDb → Option EmailTokens → Option OldDb
finish_migration db none = none
finish_migration db (some tokens) =
    some (scope_tables (backfill_operation_scope (record db { email_tokens = tokens })))

-- migrateServerSchema
unfoldable pub migrate_server_schema : Host → (String → Bool) → OldDb → Option OldDb
unfolding ensure_column
migrate_server_schema host is_disabled db =
    let ready =
      migrate_legacy_device_credentials is_disabled
        (backfill_device_owners (ensure_scope_columns db)) in
    finish_migration ready (migrate_email_token_hashes host ready.email_tokens)
