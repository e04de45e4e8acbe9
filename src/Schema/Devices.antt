-- ===== src/Schema/Devices.antt =====
-- What the migration does to the devices, it does once.
use verstak_sync_server.Prelude.{
  ◌≡◌, refl, ap, ◌∙◌, String, Bool, true, false, not, Option, none, List, [], ◌∷◌, ◌==◌, ◌&&◌,
  if◌then◌else◌, Bool-cases, inl, inr, select, All,
}
use verstak_sync_server.Schema.{DeviceRow, UserDeviceRow}
use verstak_sync_server.Schema.Migrate.{is_empty, only_user, backfill_owner, map_rows, mark_legacy}
use verstak_sync_server.Schema.Old.{Table, ensure_column}
use verstak_sync_server.Schema.Columns.{
  ensure_column-HasColumn, ensure_column_keeps, ensure_column_there, map_fixed, All-fixed,
  All-commute, ensure_column-All,
}

-- The devices.
mark_legacy_twice :
    (is_disabled : String → Bool) (d : DeviceRow)
    → mark_legacy is_disabled (mark_legacy is_disabled d) ≡ mark_legacy is_disabled d
mark_legacy_twice is_disabled d =
    ap (λ b. record d { legacy_api_key = b }) (twice d.legacy_api_key (is_disabled d.api_key))
  where
    marked : Bool → Bool → Bool
    marked legacy disabled = if not legacy && not disabled then true else legacy

    twice :
        (legacy disabled : Bool) → marked (marked legacy disabled) disabled ≡ marked legacy disabled
    twice true b = refl
    twice false true = refl
    twice false false = refl

only_user_twice :
    (ls : List UserDeviceRow) (owner : Option String)
    → only_user ls (only_user ls owner) ≡ only_user ls owner
only_user_twice [] owner = refl
only_user_twice (l ∷ []) owner = elim (Bool-cases (is_empty owner)) [
  | inr e ↦ rw (e, e) refl
  | inl e ↦ elim (Bool-cases (l.user_id == "")) [ inl f ↦ rw (e, f) refl | inr f ↦ rw (e, f) refl ]
]
only_user_twice (l ∷ k ∷ ls) owner = refl

backfill_owner_twice :
    (links : List UserDeviceRow) (d : DeviceRow)
    → backfill_owner links (backfill_owner links d) ≡ backfill_owner links d
backfill_owner_twice links d =
    ap (λ o. record d { user_id = o })
      (only_user_twice (select (λ (l : UserDeviceRow). l.device_id == d.id) links) d.user_id)

owner-mark_legacy :
    (is_disabled : String → Bool) (links : List UserDeviceRow) (d : DeviceRow)
    → backfill_owner links (mark_legacy is_disabled d)
      ≡ mark_legacy is_disabled (backfill_owner links d)
owner-mark_legacy is_disabled links d = refl

module _ (is_disabled : String → Bool) (links : List UserDeviceRow) where
  abbrev with_scope : Table DeviceRow → Table DeviceRow
  with_scope t =
      ensure_column "vault_id" (λ (d : DeviceRow). record d { vault_id = none })
        (ensure_column "user_id" (λ (d : DeviceRow). record d { user_id = none }) t)

  abbrev with_flag : Table DeviceRow → Table DeviceRow
  with_flag t =
      ensure_column "legacy_api_key" (λ (d : DeviceRow). record d { legacy_api_key = false }) t

  abbrev mark : Table DeviceRow → Table DeviceRow
  mark = map_rows (mark_legacy is_disabled)

  abbrev owners : Table DeviceRow → Table DeviceRow
  owners = map_rows (backfill_owner links)

  -- All that the migration does to the devices.
  abbrev pub migrated_devices : Table DeviceRow → Table DeviceRow
  migrated_devices t = mark (with_flag (owners (with_scope t)))

  flagged_owned :
      (t : Table DeviceRow) → All (λ d. backfill_owner links d ≡ d) (migrated_devices t).rows
  flagged_owned t =
      let owned =
        All-fixed (backfill_owner links) (with_scope t).rows (backfill_owner_twice links) in
      All-commute (backfill_owner links) (mark_legacy is_disabled)
        (with_flag (owners (with_scope t))).rows (owner-mark_legacy is_disabled links)
        (ensure_column-All (backfill_owner links) "legacy_api_key"
          (λ (d : DeviceRow). record d { legacy_api_key = false }) (owners (with_scope t))
          (λ _. refl) owned)

  pub migrated_devices_twice :
      (t : Table DeviceRow) → migrated_devices (migrated_devices t) ≡ migrated_devices t
  migrated_devices_twice t =
      let u = migrated_devices t in
      let first = ensure_column "user_id" (λ (d : DeviceRow). record d { user_id = none }) t in
      let has_vault =
        ensure_column_keeps "vault_id" "legacy_api_key"
          (λ (d : DeviceRow). record d { legacy_api_key = false }) (owners (with_scope t))
          (ensure_column-HasColumn "vault_id" (λ (d : DeviceRow). record d { vault_id = none })
            first) in
      let has_user =
        ensure_column_keeps "user_id" "legacy_api_key"
          (λ (d : DeviceRow). record d { legacy_api_key = false }) (owners (with_scope t))
          (ensure_column_keeps "user_id" "vault_id"
            (λ (d : DeviceRow). record d { vault_id = none }) first
            (ensure_column-HasColumn "user_id" (λ (d : DeviceRow). record d { user_id = none })
              t)) in
      let has_flag =
        ensure_column-HasColumn "legacy_api_key"
          (λ (d : DeviceRow). record d { legacy_api_key = false }) (owners (with_scope t)) in
      let scoped_again =
        ap (ensure_column "vault_id" (λ (d : DeviceRow). record d { vault_id = none })) (
          ensure_column_there "user_id" (λ (d : DeviceRow). record d { user_id = none }) u has_user)
        ∙ ensure_column_there "vault_id" (λ (d : DeviceRow). record d { vault_id = none }) u
            has_vault in
      let owned_again =
        ap (λ rows. record u { rows = rows })
          (map_fixed (backfill_owner links) u.rows (flagged_owned t)) in
      ap (λ v. mark (with_flag (owners v))) scoped_again
      ∙ ap (λ v. mark (with_flag v)) owned_again
      ∙ ap mark (
          ensure_column_there "legacy_api_key"
            (λ (d : DeviceRow). record d { legacy_api_key = false }) u has_flag)
      ∙ ap (λ rows. record u { rows = rows })
          (map_fixed (mark_legacy is_disabled) u.rows (
            All-fixed (mark_legacy is_disabled) (with_flag (owners (with_scope t))).rows
              (mark_legacy_twice is_disabled)))
