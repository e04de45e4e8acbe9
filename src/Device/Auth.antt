-- ===== src/Device/Auth.antt =====
-- internal/server/middleware.go: who sends a request of the sync protocol.
use verstak_sync_server.Prelude.{
  ℕ, String, Bool, true, false, Option, none, some, ◌==◌, ◌&&◌, if◌then◌else◌, find, update_where,
  trim_prefix, not,
}
use Prim.Native.String.{◌++◌}
use verstak_sync_server.Schema.{Db, DeviceRow, UserRow}
use verstak_sync_server.Server.World.{stamp}
use verstak_sync_server.Server.Reply.{json_err, internal_error}
use verstak_sync_server.Server.Request.{Request}
use verstak_sync_server.Server.Action.{
  M, ◌>>=◌, ◌>>◌, pure, gets, stop_if, exec, query, Row, row, row_or,
}

pub record AuthenticatedDevice : Type 0 where
  pub device_id : String
  pub user_id : String
  pub vault_id : String

-- `column = text` in SQL: NULL equals nothing.
abbrev pub is_text : Option String → String → Bool
is_text none s = false
is_text (some t) s = t == s

-- A sql.NullString read as a text.
abbrev pub text_or_empty : Option String → String
text_or_empty none = ""
text_or_empty (some t) = t

-- The token, from the header or the query.
unfoldable pub device_key : Request → String
device_key r =
    let header = trim_prefix r.authorization "Bearer " in if header == "" then r.api_key else header

abbrev pub by_token_hash : String → DeviceRow → Bool
by_token_hash h d = is_text d.token_hash h

abbrev pub by_legacy_key : String → DeviceRow → Bool
by_legacy_key key d = (d.api_key == key) && d.legacy_api_key

abbrev pub legacy_device : String → M DeviceRow
legacy_device key = do
  found ← query (λ db. find (by_legacy_key key) db.devices)
  row_or found (json_err 401) (json_err 401)

abbrev pub or_legacy : String → Row DeviceRow → M DeviceRow
or_legacy key (row d) = pure d
or_legacy key Row.no_rows = legacy_device key
or_legacy key Row.broken = legacy_device key

-- The two queries of authenticateDevice.
unfoldable pub find_device : String → M DeviceRow
find_device key = do
  host ← gets (λ w. w.host)
  found ← query (λ db. find (by_token_hash (host.sha256_hex key)) db.devices)
  or_legacy key found

abbrev pub is_some {ℓ} : {A : Type ℓ} → Option A → Bool
is_some none = false
is_some (some a) = true

-- A user who is blocked, or who is not there, may not go on.
unfoldable pub check_owner : String → M (Unit {0})
check_owner user_id = if user_id == "" then pure tt else do
  found ← query (λ db. find (λ (u : UserRow). u.id == user_id) db.users)
  user ← row_or found internal_error internal_error
  stop_if user.blocked (json_err 403)

abbrev pub touch_device : ℕ → String → Db → Db
touch_device seen id db = record db {
  devices = update_where (λ d. d.id == id) (λ d. record d { last_seen = some seen }) db.devices;
}

abbrev pub device_of : DeviceRow → AuthenticatedDevice
device_of d = record {
  device_id = d.id;
  user_id = text_or_empty d.user_id;
  vault_id = text_or_empty d.vault_id;
}

abbrev pub note_visit : DeviceRow → M AuthenticatedDevice
note_visit d = do now ← gets (λ w. stamp w.now); exec (touch_device now d.id); pure (device_of d)

-- What authenticateDevice does with the row that it finds.
abbrev pub admit_device : DeviceRow → M AuthenticatedDevice
admit_device d = do
  stop_if (is_some d.revoked_at) (json_err 401)
  check_owner (text_or_empty d.user_id)
  note_visit d

-- authenticateDevice
unfoldable pub authenticate_device : Request → M AuthenticatedDevice
unfolding device_key find_device check_owner
authenticate_device r = do
  stop_if (device_key r == "") (json_err 401)
  d ← find_device (device_key r)
  admit_device d

-- effectiveVaultScope
unfoldable pub effective_vault_scope : String → String → String
effective_vault_scope user_id vault_id =
    if not (vault_id == "") then vault_id else if user_id == "" then "" else "legacy:" ++ user_id

-- requireSyncScope
unfoldable pub require_sync_scope : Request → M AuthenticatedDevice
unfolding authenticate_device effective_vault_scope
require_sync_scope r = do
  d ← authenticate_device r
  stop_if (d.user_id == "") (json_err 403)
  let vault = effective_vault_scope d.user_id d.vault_id
  stop_if (vault == "") (json_err 403)
  pure (record d { vault_id = vault })
