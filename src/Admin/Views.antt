-- ===== src/Admin/Views.antt =====
-- internal/server/web_admin.go: the rows that the administrator's lists show. SQLite's LIKE and
-- ORDER BY are parameters; the orders that a list can be asked for are named as in the request.
use verstak_sync_server.Prelude.{
  ℕ, ◌+◌, String, Bool, true, false, not, Option, none, some, List, [], ◌∷◌, map, ◌==◌, ◌&&◌, ◌||◌,
  if◌then◌else◌, find, any, select, length,
}
use verstak_sync_server.Schema.{Db, UserRow, DeviceRow, UserDeviceRow}
use verstak_sync_server.Server.Action.{M, ◌>>=◌, pure, query_all}
use verstak_sync_server.Device.Auth.{is_some, text_or_empty}
use verstak_sync_server.Device.Credentials.{concat}
use verstak_sync_server.Admin.Users.{owner_is}
use verstak_sync_server.Admin.Lists.{WebList, finish_web_list, page_rows}

-- `like pattern text`, and the rows in an order.
pub record Sqlite : Type 0 where
  pub like : String → String → Bool
  pub order_users : String → List UserRow → List UserRow
  pub order_devices : String → List DeviceRow → List DeviceRow

abbrev pub around : String → String
around text = concat "%" (concat text "%")

-- NULL is like nothing.
abbrev pub like_option : Sqlite → String → Option String → Bool
like_option sql text none = false
like_option sql text (some s) = sql.like (around text) s

-- A condition that an empty field leaves out.
abbrev pub given : String → Bool → Bool
given text condition = if text == "" then true else condition

abbrev pub user_status : String → UserRow → Bool
user_status status u =
    if status == "active"
    then u.confirmed && not u.blocked
    else if status == "blocked"
    then u.blocked
    else if status == "unconfirmed"
    then not u.confirmed
    else true

abbrev pub matches_user : Sqlite → WebList → UserRow → Bool
matches_user sql l u =
    given l.query (sql.like (around l.query) u.username || sql.like (around l.query) u.email)
    && user_status l.status u

pub record WebAdminUser : Type 0 where
  pub id : String
  pub username : String
  pub email : String
  pub created_at : ℕ
  pub last_seen : Option ℕ
  pub confirmed : Bool
  pub blocked : Bool
  pub devices : ℕ
  pub vaults : ℕ

-- COUNT(DISTINCT ...)
abbrev pub distinct : List String → List String → ℕ
distinct seen [] = 0
distinct seen (s ∷ ss) =
    let rest = distinct (s ∷ seen) ss in if any (λ t. t == s) seen then rest else 1 + rest

abbrev pub vault_names : List DeviceRow → List String
vault_names ds = select (λ v. not (v == "")) (map (λ (d : DeviceRow). text_or_empty d.vault_id) ds)

abbrev pub show_user : Db → UserRow → WebAdminUser
show_user db u = record {
  id = u.id;
  username = u.username;
  email = u.email;
  created_at = u.created_at;
  last_seen = u.last_seen;
  confirmed = u.confirmed;
  blocked = u.blocked;
  devices = length (select (λ (l : UserDeviceRow). l.user_id == u.id) db.user_devices);
  vaults =
      distinct [] (vault_names (select (λ (d : DeviceRow). owner_is u.id d.user_id) db.devices));
}

-- A sort that is not known is the one by the time of creation.
abbrev pub known_sort : String → String → String
known_sort name sort =
    if (sort == name) || (sort == "last_seen") || (sort == "created") then sort else "created"

abbrev pub with_sort : String → WebList → WebList
with_sort name l = record l { sort = known_sort name l.sort }

abbrev pub user_rows : Sqlite → WebList → Db → List UserRow
user_rows sql l db =
    sql.order_users (known_sort "username" l.sort) (select (matches_user sql l) db.users)

abbrev pub count_users : Sqlite → WebList → Db → ℕ
count_users sql l db = length (select (matches_user sql l) db.users)

abbrev pub page_of_users : Sqlite → WebList → Db → List WebAdminUser
page_of_users sql l db = map (show_user db) (page_rows l (user_rows sql l db))

-- webAdminUsers
unfoldable pub web_admin_users : Sqlite → WebList → M (List WebAdminUser × WebList)
unfolding finish_web_list
web_admin_users sql l = do
  total ← query_all (count_users sql l)
  let done = finish_web_list l total
  rows ← query_all (page_of_users sql done)
  pure (rows, with_sort "username" done)

abbrev pub owner_name : Db → DeviceRow → Option String
owner_name db d = elim (find (λ (u : UserRow). owner_is u.id d.user_id) db.users) [
  | none ↦ none
  | some u ↦ some u.username
]

abbrev pub device_status : String → DeviceRow → Bool
device_status status d =
    if status == "active"
    then not (is_some d.revoked_at)
    else if status == "revoked"
    then is_some d.revoked_at
    else true

abbrev pub matches_device : Sqlite → WebList → Db → DeviceRow → Bool
matches_device sql l db d =
    given l.query (
      sql.like (around l.query) d.name
      || like_option sql l.query (owner_name db d)
      || like_option sql l.query d.vault_id)
    && device_status l.status d
    && given l.user (like_option sql l.user (owner_name db d))
    && given l.vault (like_option sql l.vault d.vault_id)
    && given l.version (like_option sql l.version d.client_version)

pub record WebAdminDevice : Type 0 where
  pub id : String
  pub name : String
  pub user : String
  pub vault : String
  pub version : String
  pub last_ip : String
  pub last_seen : Option ℕ
  pub created_at : ℕ
  pub token_hint : String
  pub revoked : Bool

abbrev pub token_hint_of : String → String → String
token_hint_of prefix suffix =
    if (prefix == "") && (suffix == "") then "" else concat prefix (concat "…" suffix)

abbrev pub show_device : Db → DeviceRow → WebAdminDevice
show_device db d = record {
  id = d.id;
  name = d.name;
  user = text_or_empty (owner_name db d);
  vault = text_or_empty d.vault_id;
  version = text_or_empty d.client_version;
  last_ip = text_or_empty d.last_ip;
  last_seen = d.last_seen;
  created_at = d.created_at;
  token_hint = token_hint_of (text_or_empty d.token_prefix) (text_or_empty d.token_suffix);
  revoked = is_some d.revoked_at;
}

abbrev pub device_rows : Sqlite → WebList → Db → List DeviceRow
device_rows sql l db =
    sql.order_devices (known_sort "name" l.sort) (select (matches_device sql l db) db.devices)

abbrev pub count_devices : Sqlite → WebList → Db → ℕ
count_devices sql l db = length (select (matches_device sql l db) db.devices)

abbrev pub page_of_devices : Sqlite → WebList → Db → List WebAdminDevice
page_of_devices sql l db = map (show_device db) (page_rows l (device_rows sql l db))

-- webAdminDevices
unfoldable pub web_admin_devices : Sqlite → WebList → M (List WebAdminDevice × WebList)
unfolding finish_web_list
web_admin_devices sql l = do
  total ← query_all (count_devices sql l)
  let done = finish_web_list l total
  rows ← query_all (page_of_devices sql done)
  pure (rows, with_sort "name" done)
