-- ===== src/Device/Overview.antt =====
-- internal/server/handlers_web_user.go: the devices that a user sees. The value of each action
-- is what its handler encodes or shows.
use verstak_sync_server.Prelude.{
  ℕ, String, Bool, true, not, Option, List, map, ◌==◌, ◌&&◌, ◌||◌, if◌then◌else◌, find, any, select,
  trim_space,
}
use verstak_sync_server.Schema.{Db, UserRow, DeviceRow, UserDeviceRow}
use verstak_sync_server.Server.Reply.{method_not_allowed}
use verstak_sync_server.Server.Request.{Request, value_of}
use verstak_sync_server.Server.Action.{
  M, ◌>>=◌, ◌>>◌, pure, stop_if, query, row_or, query_all, answering,
}
use verstak_sync_server.Locale.{web_error}
use verstak_sync_server.Session.Store.{require_session}
use verstak_sync_server.Device.Auth.{is_some, text_or_empty}
use verstak_sync_server.Admin.Views.{Sqlite, around, given, like_option}

-- JOIN server_user_devices
abbrev pub is_linked : String → Db → DeviceRow → Bool
is_linked user_id db d =
    any (λ (l : UserDeviceRow). (l.user_id == user_id) && (l.device_id == d.id)) db.user_devices

abbrev pub own_devices : Sqlite → (DeviceRow → Bool) → String → Db → List DeviceRow
own_devices sql matches user_id db =
    sql.order_devices "created" (select (λ d. is_linked user_id db d && matches d) db.devices)

pub record DeviceItem : Type 0 where
  pub id : String
  pub name : String
  pub client_version : String
  pub last_seen : Option ℕ
  pub revoked_at : Option ℕ
  pub created_at : ℕ

abbrev pub item_of : DeviceRow → DeviceItem
item_of d = record {
  id = d.id;
  name = d.name;
  client_version = text_or_empty d.client_version;
  last_seen = d.last_seen;
  revoked_at = d.revoked_at;
  created_at = d.created_at;
}

-- handleUserDevices
unfoldable pub handle_user_devices : Sqlite → Request → M (List DeviceItem)
unfolding require_session
handle_user_devices sql r = do
  stop_if (not (r.method == "GET")) method_not_allowed
  session ← require_session r "user"
  query_all (λ db. map item_of (own_devices sql (λ d. true) session.subject_id db))

pub record WebDevice : Type 0 where
  pub id : String
  pub name : String
  pub vault : String
  pub client_version : String
  pub last_seen : Option ℕ
  pub created_at : ℕ
  pub revoked : Bool

abbrev pub web_device : DeviceRow → WebDevice
web_device d = record {
  id = d.id;
  name = d.name;
  vault = text_or_empty d.vault_id;
  client_version = text_or_empty d.client_version;
  last_seen = d.last_seen;
  created_at = d.created_at;
  revoked = is_some d.revoked_at;
}

abbrev pub matches_own : Sqlite → String → DeviceRow → Bool
matches_own sql text d = given text (
    sql.like (around text) d.name
    || like_option sql text d.vault_id
    || like_option sql text d.client_version)

-- The message over the page is one of two; any other text in the request is dropped.
abbrev pub known_flash : String → String
known_flash flash =
    if (flash == "error.invalidCredentials") || (flash == "user.deviceRevoked") then flash else ""

abbrev pub given_flash : Request → String
given_flash r =
    if value_of "flash" r.params == "" then value_of "error" r.params else value_of "flash" r.params

pub record UserDashboard : Type 0 where
  pub user_name : String
  pub email : String
  pub user_confirmed : Bool
  pub devices : List WebDevice
  pub flash : String
  pub flash_error : Bool
  pub query : String

-- handleUserDashboard
unfoldable pub handle_user_dashboard : Sqlite → Request → M UserDashboard
unfolding require_session
handle_user_dashboard sql r = do
  stop_if (not (r.method == "GET")) method_not_allowed
  session ← require_session r "user"
  found ← query (λ db. find (λ (u : UserRow). u.id == session.subject_id) db.users)
  user ← row_or found (web_error 500 "error.internal") (web_error 500 "error.internal")
  let text = trim_space (value_of "q" r.params)
  devices ←
      answering (λ failed. web_error 500 "error.internal")
        (query_all
          (λ db. map web_device (own_devices sql (matches_own sql text) session.subject_id db)))
  pure (record {
    user_name = user.username;
    email = user.email;
    user_confirmed = user.confirmed;
    devices = devices;
    flash = known_flash (given_flash r);
    flash_error = (value_of "flash" r.params == "") && not (value_of "error" r.params == "");
    query = text;
  })
