-- ===== src/Schema/Scope.antt =====
-- An operation of an older server comes into the scope that its device has now.
use verstak_sync_server.Prelude.{
  ◌≡◌, refl, subst, String, Bool, true, false, not, some, List, [], ◌∷◌, ◌++◌, map, ◌==◌, ◌&&◌,
  if◌then◌else◌, any, Bool-cases, inl, inr, All, arith,
}
use verstak_sync_server.Schema.{DeviceRow, OpRow}
use verstak_sync_server.Server.World.{Host}
use verstak_sync_server.Device.Auth.{effective_vault_scope}
use verstak_sync_server.Schema.Migrate.{
  sender, device_user, device_vault, backfill_user, backfill_vault, vault_or_legacy,
  migrate_server_schema,
}
use verstak_sync_server.Schema.Old.{Table, OldDb, ensure_column}
use verstak_sync_server.Schema.Devices.{migrated_devices}
use verstak_sync_server.Schema.Twice.{migrated_ops, migrate_server_schema-some}

-- The user is the device's, and where there is one the vault is the one that requireSyncScope
-- gives the device.
abbrev pub IsInScope : List DeviceRow → OpRow → Type 0
IsInScope devices o =
    (o.user_id ≡ device_user (sender devices o))
    × ((o.user_id == "") ≡ false
        → o.vault_id ≡ effective_vault_scope o.user_id (device_vault (sender devices o)))

scoped :
    (vault user : String)
    → (user == "") ≡ false
    → (if ("" == "") && not (user == "") then vault_or_legacy user vault else "")
      ≡ effective_vault_scope user vault
unfolding effective_vault_scope
scoped vault user h = elim (Bool-cases (vault == "")) [
  | inl e ↦ rw (h, e) refl
  | inr e ↦ rw (h, e) refl
]

module _ (ds : List DeviceRow) where
  abbrev reset : OpRow → OpRow
  reset o = record o { user_id = ""; vault_id = "" }

  rows-IsInScope :
      (os : List OpRow)
      → All (IsInScope ds) (
          map (backfill_vault ds) (
            map (backfill_user ds) (
              map
                (λ (o : OpRow). record o { vault_id = "" })
                (map (λ (o : OpRow). record o { user_id = "" }) os))))
  rows-IsInScope [] = tt
  rows-IsInScope (o ∷ os) = (
    (refl, λ h. scoped (device_vault (sender ds o)) (device_user (sender ds o)) h),
    rows-IsInScope os,
  )

  column_absent :
      (cs : List String)
      → any (λ c. c == "vault_id") cs ≡ false
      → any (λ c. c == "vault_id") (cs ++ "user_id" ∷ []) ≡ false
  column_absent [] h = refl
  column_absent (c ∷ cs) h = elim (Bool-cases (c == "vault_id")) [
    | inl e ↦ let clash : true ≡ false = rw e at h in absurd (ground arith)
    | inr e ↦ rw e (column_absent cs (rw e at h))
  ]

  -- Both columns are new, so they hold nothing but their defaults.
  new_columns :
      (t : Table OpRow)
      → any (λ c. c == "user_id") t.columns ≡ false
      → any (λ c. c == "vault_id") t.columns ≡ false
      → All (IsInScope ds) (migrated_ops ds t).rows
  unfolding ensure_column
  new_columns t no_user no_vault =
      let absent = column_absent t.columns no_vault in rw (no_user, absent) (rows-IsInScope t.rows)

-- In the tables of a server that kept no users and vaults with its operations, the migration gives
-- each operation the user of the device that sent it, and, where that device has one, the vault
-- that the device is now served in.
pub migrate_server_schema-scope :
    (host : Host) (is_disabled : String → Bool) (before after : OldDb)
    → any (λ c. c == "user_id") before.ops.columns ≡ false
    → any (λ c. c == "vault_id") before.ops.columns ≡ false
    → migrate_server_schema host is_disabled before ≡ some after
    → All (IsInScope after.devices.rows) after.ops.rows
migrate_server_schema-scope host is_disabled before after no_user no_vault h =
    let (tokens, e, is) = migrate_server_schema-some host is_disabled before after h in
    let devices = migrated_devices is_disabled before.user_devices before.devices in
    subst (λ (db : OldDb). All (IsInScope db.devices.rows) db.ops.rows) is
      (new_columns devices.rows before.ops no_user no_vault)
