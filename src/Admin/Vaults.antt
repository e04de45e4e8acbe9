-- ===== src/Admin/Vaults.antt =====
-- internal/server/web_admin.go: the vaults, which are the scopes of the devices.
use verstak_sync_server.Prelude.{
  ℕ, ◌*◌, String, Bool, not, Option, none, some, List, [], ◌∷◌, map, ◌==◌, ◌&&◌, ◌||◌,
  if◌then◌else◌, find, any, select, length,
}
use verstak_sync_server.Schema.{Db, UserRow, DeviceRow, OpRow, BlobRefRow}
use verstak_sync_server.Server.Reply.{method_not_allowed}
use verstak_sync_server.Server.Request.{Request, value_of}
use verstak_sync_server.Server.Action.{M, ◌>>=◌, ◌>>◌, pure, stop_if, query_all}
use verstak_sync_server.Locale.{web_error}
use verstak_sync_server.Session.Store.{require_session}
use verstak_sync_server.Device.Auth.{is_some, text_or_empty}
use verstak_sync_server.Health.{count, has_scope, latest, seen_at, sum}
use verstak_sync_server.Admin.Views.{Sqlite, WebAdminDevice, show_device}

pub record WebVault : Type 0 where
  pub user : String
  pub user_id : String
  pub vault : String
  pub devices : ℕ
  pub operations : ℕ
  pub last_activity : Option ℕ

abbrev pub device_in : String → String → DeviceRow → Bool
device_in user vault d = (text_or_empty d.user_id == user) && (text_or_empty d.vault_id == vault)

abbrev pub op_in : String → String → OpRow → Bool
op_in user vault o = (o.user_id == user) && (o.vault_id == vault)

abbrev pub name_of : String → Db → String
name_of id db = elim (find (λ (u : UserRow). u.id == id) db.users) [
  | none ↦ ""
  | some u ↦ u.username
]

-- A group of the query. Its COUNT(o.op_id) counts each operation once for each device, since the
-- rows of the two tables are joined by the scope alone.
abbrev pub vault_of : Db → String → String → WebVault
vault_of db user vault =
    let ds = select (device_in user vault) db.devices in
    record {
      user = name_of user db;
      user_id = user;
      vault = vault;
      devices = length ds;
      operations = length ds * count (op_in user vault) db.ops;
      last_activity = latest (seen_at ds);
    }

-- GROUP BY: the scopes of the devices, each one once.
abbrev pub groups : Db → List DeviceRow → List DeviceRow → List WebVault
groups db seen [] = []
groups db seen (d ∷ ds) =
    let user = text_or_empty d.user_id in
    let vault = text_or_empty d.vault_id in
    let rest = groups db (d ∷ seen) ds in
    if any (device_in user vault) seen then rest else vault_of db user vault ∷ rest

-- webVaults; `order` is ORDER BY MAX(d.last_seen) DESC.
unfoldable pub web_vaults : (List WebVault → List WebVault) → M (List WebVault)
web_vaults order = query_all (λ db. order (groups db [] (select has_scope db.devices)))

pub record WebVaultDetail : Type 0 where
  pub user : String
  pub vault : String
  pub last_activity : Option ℕ
  pub devices : ℕ
  pub active : ℕ
  pub revoked : ℕ
  pub operations : ℕ
  pub sequence : ℕ
  pub blob_bytes : ℕ

abbrev pub or_zero : Option ℕ → ℕ
or_zero none = 0
or_zero (some n) = n

abbrev pub sequences : List OpRow → List ℕ
sequences [] = []
sequences (o ∷ os) = elim o.server_sequence [ none ↦ sequences os | some n ↦ n ∷ sequences os ]

-- The operations are joined to the devices, so without a device there are none.
abbrev pub ops_with : List DeviceRow → List OpRow → List OpRow
ops_with [] os = []
ops_with (d ∷ ds) os = os

abbrev pub detail_of : String → String → Db → WebVaultDetail
detail_of user vault db =
    let ds = select (device_in user vault) db.devices in
    let os = ops_with ds (select (op_in user vault) db.ops) in
    record {
      user = name_of user db;
      vault = vault;
      last_activity = latest (seen_at ds);
      devices = length ds;
      active = count (λ (d : DeviceRow). not (is_some d.revoked_at)) ds;
      revoked = count (λ (d : DeviceRow). is_some d.revoked_at) ds;
      operations = length os;
      sequence = or_zero (latest (sequences os));
      blob_bytes = 0;
    }

abbrev pub bytes_of : String → String → Db → ℕ
bytes_of user vault db = sum (
    map (λ (r : BlobRefRow). r.size)
      (select (λ (r : BlobRefRow). (r.user_id == user) && (r.vault_id == vault)) db.blob_refs))

abbrev pub devices_of : Sqlite → String → String → Db → List WebAdminDevice
devices_of sql user vault db =
    map (show_device db) (sql.order_devices "created" (select (device_in user vault) db.devices))

-- handleAdminVaultDetail
unfoldable pub handle_admin_vault_detail :
    Sqlite → Request → M (WebVaultDetail × List WebAdminDevice)
unfolding require_session
handle_admin_vault_detail sql r = do
  stop_if (not (r.method == "GET")) method_not_allowed
  session ← require_session r "admin"
  let user = value_of "user" r.params
  let vault = value_of "vault" r.params
  stop_if ((user == "") || (vault == "")) (web_error 400 "error.tryAgain")
  detail ← query_all (detail_of user vault)
  bytes ← query_all (bytes_of user vault)
  devices ← query_all (devices_of sql user vault)
  pure (record detail { blob_bytes = bytes }, devices)
