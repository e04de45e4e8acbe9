-- ===== src/Schema/Twice.antt =====
-- A migration that is run again changes nothing.
use verstak_sync_server.Prelude.{
  ◌≡◌, refl, sym, ap, ◌∙◌, subst, String, Bool, true, false, not, Option, none, some, List, [], ◌∷◌,
  map, ◌==◌, ◌&&◌, if◌then◌else◌, Bool-cases, Option-cases, inl, inr, All, arith,
}
use verstak_sync_server.Schema.{DeviceRow, OpRow, EmailTokenRow}
use verstak_sync_server.Server.World.{Host}
use verstak_sync_server.Schema.Migrate.{
  map_rows, migrate_email_token_hashes, insert_tokens, hashed, sender, device_user, device_vault,
  backfill_user, vault_or_legacy, backfill_vault, migrate_tombstone_scope,
  migrate_idempotency_scope, migrate_server_schema,
}
use verstak_sync_server.Schema.Old.{
  Table, OldDb, EmailTokens, by_token, by_hash, Tombstones, unscoped, scoped, Keys, global,
  schema_version, ensure_column,
}
use verstak_sync_server.Schema.Columns.{
  ensure_column-HasColumn, ensure_column_keeps, ensure_column_there, map_fixed,
}
use verstak_sync_server.Schema.Devices.{migrated_devices, migrated_devices_twice}

abbrev user_or : String → String → String
user_or user device = if user == "" then device else user

user_or_twice : (u d : String) → user_or (user_or u d) d ≡ user_or u d
user_or_twice u d = elim (Bool-cases (u == "")) [
  | inr e ↦ rw (e, e) refl
  | inl e ↦ elim (Bool-cases (d == "")) [ inl f ↦ rw (e, f) refl | inr f ↦ rw (e, f) refl ]
]

abbrev vault_or : String → String → String → String
vault_or vault user device =
    if (vault == "") && not (user == "") then vault_or_legacy user device else vault

same_or : (b : Bool) (s : String) → (if b then s else s) ≡ s
same_or true s = refl
same_or false s = refl

vault_or_twice : (v u d : String) → vault_or (vault_or v u d) u d ≡ vault_or v u d
vault_or_twice v u d = elim (Bool-cases ((v == "") && not (u == ""))) [
  | inr e ↦ rw (e, e) refl
  | inl e ↦ let w = vault_or_legacy u d in rw e (same_or ((w == "") && not (u == "")) w)
]

module _ (ds : List DeviceRow) where
  abbrev pub with_scope : Table OpRow → Table OpRow
  with_scope t =
      ensure_column "vault_id" (λ (o : OpRow). record o { vault_id = "" })
        (ensure_column "user_id" (λ (o : OpRow). record o { user_id = "" }) t)

  abbrev pub migrated_op : OpRow → OpRow
  migrated_op o = backfill_vault ds (backfill_user ds o)

  -- All that the migration does to the operations.
  abbrev pub migrated_ops : Table OpRow → Table OpRow
  migrated_ops t = map_rows (backfill_vault ds) (map_rows (backfill_user ds) (with_scope t))

  user_fixed :
      (os : List OpRow)
      → All (λ o. backfill_user ds o ≡ o) (map (backfill_vault ds) (map (backfill_user ds) os))
  user_fixed [] = tt
  user_fixed (o ∷ os) = (
    ap (λ u. record (migrated_op o) { user_id = u })
        (user_or_twice o.user_id (device_user (sender ds o))),
    user_fixed os,
  )

  vault_fixed :
      (os : List OpRow)
      → All (λ o. backfill_vault ds o ≡ o) (map (backfill_vault ds) (map (backfill_user ds) os))
  vault_fixed [] = tt
  vault_fixed (o ∷ os) = (
    ap (λ v. record (backfill_user ds o) { vault_id = v })
        (vault_or_twice o.vault_id (backfill_user ds o).user_id (device_vault (sender ds o))),
    vault_fixed os,
  )

  migrated_ops_twice : (t : Table OpRow) → migrated_ops (migrated_ops t) ≡ migrated_ops t
  migrated_ops_twice t =
      let u = migrated_ops t in
      let reset_user = λ (o : OpRow). record o { user_id = "" } in
      let reset_vault = λ (o : OpRow). record o { vault_id = "" } in
      let first = ensure_column "user_id" reset_user t in
      let has_user =
        ensure_column_keeps "user_id" "vault_id" reset_vault first
          (ensure_column-HasColumn "user_id" reset_user t) in
      let has_vault = ensure_column-HasColumn "vault_id" reset_vault first in
      let scoped_again =
        ap (ensure_column "vault_id" reset_vault)
          (ensure_column_there "user_id" reset_user u has_user)
        ∙ ensure_column_there "vault_id" reset_vault u has_vault in
      ap (λ v. map_rows (backfill_vault ds) (map_rows (backfill_user ds) v)) scoped_again
      ∙ ap (λ rows. record u { rows = map (backfill_vault ds) rows })
          (map_fixed (backfill_user ds) u.rows (user_fixed (with_scope t).rows))
      ∙ ap (λ rows. record u { rows = rows })
          (map_fixed (backfill_vault ds) u.rows (vault_fixed (with_scope t).rows))

-- The tables after a migration, of which only the tokens can go wrong.
abbrev pub migrated : (String → Bool) → OldDb → EmailTokens → OldDb
migrated is_disabled db tokens =
    let devices = migrated_devices is_disabled db.user_devices db.devices in
    let ops = migrated_ops devices.rows db.ops in
    record {
      devices = devices;
      user_devices = db.user_devices;
      ops = ops;
      email_tokens = tokens;
      tombstones = migrate_tombstone_scope ops.rows db.tombstones;
      idempotency_keys = migrate_idempotency_scope db.idempotency_keys;
      user_version = schema_version;
    }

pub migrate_server_schema_lem :
    (host : Host) (is_disabled : String → Bool) (db : OldDb) (tokens : EmailTokens)
    → migrate_email_token_hashes host db.email_tokens ≡ some tokens
    → migrate_server_schema host is_disabled db ≡ some (migrated is_disabled db tokens)
unfolding migrate_server_schema
migrate_server_schema_lem host is_disabled db tokens h = rw h refl

tombstones_twice :
    (ops ops' : List OpRow) (t : Tombstones)
    → migrate_tombstone_scope ops (migrate_tombstone_scope ops' t) ≡ migrate_tombstone_scope ops' t
tombstones_twice ops ops' (unscoped ts) = refl
tombstones_twice ops ops' (scoped rows) = refl

keys_twice :
    (k : Keys)
    → migrate_idempotency_scope (migrate_idempotency_scope k) ≡ migrate_idempotency_scope k
keys_twice (global n) = refl
keys_twice (Keys.scoped rows) = refl

hashed_twice :
    (host : Host) (o : Option (List EmailTokenRow)) (tokens : EmailTokens)
    → hashed o ≡ some tokens
    → migrate_email_token_hashes host tokens ≡ some tokens
hashed_twice host none tokens h = absurd (ground arith)
hashed_twice host (some rows) tokens h =
    let is : by_hash rows ≡ tokens = ground arith in
    subst (λ t. migrate_email_token_hashes host t ≡ some t) is refl

tokens_twice :
    (host : Host) (old tokens : EmailTokens)
    → migrate_email_token_hashes host old ≡ some tokens
    → migrate_email_token_hashes host tokens ≡ some tokens
tokens_twice host (by_hash rows) tokens h = hashed_twice host (some rows) tokens h
tokens_twice host (by_token ts) tokens h = hashed_twice host (insert_tokens host ts []) tokens h

migrated_twice :
    (is_disabled : String → Bool) (db : OldDb) (tokens : EmailTokens)
    → migrated is_disabled (migrated is_disabled db tokens) tokens ≡ migrated is_disabled db tokens
migrated_twice is_disabled db tokens =
    let after = migrated is_disabled db tokens in
    let again = λ (devices : Table DeviceRow).
      let ops = migrated_ops devices.rows after.ops in
      record after {
        devices = devices;
        ops = ops;
        tombstones = migrate_tombstone_scope ops.rows after.tombstones;
        idempotency_keys = migrate_idempotency_scope after.idempotency_keys;
      } in
    ap again (migrated_devices_twice is_disabled db.user_devices db.devices)
    ∙ ap
        (λ (ops : Table OpRow). record after {
          ops = ops;
          tombstones = migrate_tombstone_scope ops.rows after.tombstones;
          idempotency_keys = migrate_idempotency_scope after.idempotency_keys;
        })
        (migrated_ops_twice after.devices.rows db.ops)
    ∙ ap
        (λ (t : Tombstones). record after {
          tombstones = t;
          idempotency_keys = migrate_idempotency_scope after.idempotency_keys;
        })
        (tombstones_twice after.ops.rows after.ops.rows db.tombstones)
    ∙ ap (λ (k : Keys). record after { idempotency_keys = k }) (keys_twice db.idempotency_keys)

-- What a migration that succeeds has made of the tables.
pub migrate_server_schema-some :
    (host : Host) (is_disabled : String → Bool) (before after : OldDb)
    → migrate_server_schema host is_disabled before ≡ some after
    → (tokens : EmailTokens) × (migrate_email_token_hashes host before.email_tokens ≡ some tokens)
      × (migrated is_disabled before tokens ≡ after)
unfolding migrate_server_schema
migrate_server_schema-some host is_disabled before after h =
    elim (Option-cases (migrate_email_token_hashes host before.email_tokens)) [
      | inl e ↦
          let clash : ◌≡◌ {A = Option OldDb} none (some after) = rw e at h in absurd (ground arith)
      | inr (tokens, e) ↦
          let run = migrate_server_schema_lem host is_disabled before tokens e in
          let same : some (migrated is_disabled before tokens) ≡ some after = sym run ∙ h in
          (tokens, e, ground arith)
    ]

-- The migration of tables that have been migrated succeeds and leaves them as they are.
pub migrate_server_schema_twice :
    (host : Host) (is_disabled : String → Bool) (before after : OldDb)
    → migrate_server_schema host is_disabled before ≡ some after
    → migrate_server_schema host is_disabled after ≡ some after
migrate_server_schema_twice host is_disabled before after h =
    let (tokens, e, is) = migrate_server_schema-some host is_disabled before after h in
    subst (λ db. migrate_server_schema host is_disabled db ≡ some db) is
      (migrate_server_schema_lem host is_disabled (migrated is_disabled before tokens) tokens
          (tokens_twice host before.email_tokens tokens e)
        ∙ ap (λ db. some db) (migrated_twice is_disabled before tokens))
