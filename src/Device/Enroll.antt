-- ===== src/Device/Enroll.antt =====
-- internal/server/devices.go, tokens.go and the handlers of handlers_api.go that pair, register
-- and revoke devices.
use verstak_sync_server.Prelude.{
  ℕ, String, Bool, false, not, Option, none, some, [], ◌∷◌, ◌++◌, ◌==◌, ◌&&◌, ◌||◌, ltb,
  if◌then◌else◌, any, delete_where, update_where, len, trim_space, has_prefix,
}
use verstak_sync_server.Schema.{Db, DeviceRow}
use verstak_sync_server.Server.World.{Host, stamp}
use verstak_sync_server.Server.Reply.{Reply, json_ok, json_err, internal_error, paired, registered}
use verstak_sync_server.Server.Request.{Request, JsonBody, decode_json_body}
use verstak_sync_server.Server.Action.{
  M, ◌>>=◌, ◌>>◌, pure, gets, stop_if, exec, exec_unique, draw, transaction,
}
use verstak_sync_server.Audit.{audit_log}
use verstak_sync_server.Proxy.{client_ip}
use verstak_sync_server.Rate.{allow_rate}
use verstak_sync_server.Sync.Contract.{
  max_login_length, max_device_name_length, max_client_version_length, max_vault_id_length,
}
use verstak_sync_server.Device.Credentials.{check_credentials, gen_device_token, concat}

-- validatePairRequest: true if the request is refused.
unfoldable pub pair_request_error : String → String → String → String → Bool
pair_request_error login device_name client_version vault_id =
    ltb max_login_length (len login)
    || ltb max_device_name_length (len device_name)
    || ltb max_client_version_length (len client_version)
    || ltb max_vault_id_length (len vault_id)
    || (vault_id == "")

abbrev pub mark_revoked : String → ℕ → Db → Db
mark_revoked id when db = record db {
  devices = update_where (λ d. d.id == id) (λ d. record d { revoked_at = some when }) db.devices;
}

abbrev pub drop_device_sessions : String → Db → Db
drop_device_sessions id db = record db {
  sessions = delete_where (λ s. (s.subject_id == id) && (s.scope == "device")) db.sessions;
}

-- revokeDevice
unfoldable pub revoke_device : String → ℕ → M (Unit {0})
revoke_device id when = transaction (do exec (mark_revoked id when); exec (drop_device_sessions id))

abbrev pub insert_device : DeviceRow → Db → Db
insert_device d db = record db { devices = db.devices ++ d ∷ [] }

-- The columns that must be unique.
abbrev pub device_clash : DeviceRow → Db → Bool
device_clash d db = any (λ e. (e.id == d.id) || (e.api_key == d.api_key)) db.devices

abbrev pub link_device : String → String → Db → Db
link_device user_id device_id db =
    if any (λ l. (l.user_id == user_id) && (l.device_id == device_id)) db.user_devices
    then db
    else record db {
      user_devices = db.user_devices ++ record { user_id = user_id; device_id = device_id } ∷ [];
    }

abbrev pub see_user : String → ℕ → Db → Db
see_user id now db = record db {
  users = update_where (λ u. u.id == id) (λ u. record u { last_seen = some now }) db.users;
}

pub record PairRequest : Type 0 where
  pub login : String
  pub password : String
  pub device_name : String
  pub client_version : String
  pub vault_id : String

-- The row that a device begins with.
abbrev pub new_device :
    String
    → String
    → String
    → String
    → String
    → Option String
    → Option String
    → ℕ
    → Host
    → DeviceRow
new_device id name token user_id vault_id version ip now host = record {
  id = id;
  name = name;
  api_key = concat "disabled:" id;
  token_hash = some (host.sha256_hex token);
  token_prefix = some (gen_device_token token).0;
  token_suffix = some (gen_device_token token).1;
  legacy_api_key = false;
  user_id = some user_id;
  vault_id = some vault_id;
  client_version = version;
  last_ip = ip;
  last_seen = some now;
  revoked_at = none;
  created_at = now;
}

-- The transaction of handleClientPair.
unfoldable pub pair_device : DeviceRow → String → ℕ → M (Unit {0})
pair_device d user_id now = transaction (do
  exec_unique (device_clash d) internal_error (insert_device d)
  exec (link_device user_id d.id)
  exec (see_user user_id now))

-- handleClientPair
unfoldable pub handle_client_pair : Request → JsonBody PairRequest → M Reply
unfolding decode_json_body allow_rate pair_request_error pair_device audit_log client_ip
    check_credentials
handle_client_pair r body = do
  stop_if (not (r.method == "POST")) (json_err 405)
  host ← gets (λ w. w.host)
  cfg ← gets (λ w. w.cfg)
  now ← gets (λ w. stamp w.now)
  req ← decode_json_body body cfg.limits.max_json_body
  stop_if ((req.login == "") || (req.password == "")) (json_err 400)
  allow_rate r "pair" req.login
  let vault_id = trim_space req.vault_id
  stop_if (vault_id == "") (json_err 400)
  stop_if (has_prefix vault_id "legacy:") (json_err 400)
  let name = if req.device_name == "" then "unknown" else req.device_name
  stop_if (pair_request_error req.login name req.client_version vault_id) (json_err 400)
  let ip = client_ip host cfg r
  user ←
      check_credentials (λ user_id message. audit_log "device_auth_failed" user_id "" ip message)
        req.login req.password
  id ← draw
  token ← draw
  let d =
      new_device (concat "dev_" id) name token user.id vault_id (some req.client_version) (some ip)
        now host
  pair_device d user.id now
  audit_log "device_paired" user.id d.id ip (concat "device paired: " name)
  pure (json_ok (paired user.id d.id token now))

pub record RegisterDevice : Type 0 where
  pub name : String
  pub username : String
  pub password : String
  pub vault_id : String

-- handleDeviceRegister
unfoldable pub handle_device_register : Request → JsonBody RegisterDevice → M Reply
unfolding decode_json_body allow_rate pair_request_error check_credentials
handle_device_register r body = do
  stop_if (not (r.method == "POST")) (json_err 405)
  host ← gets (λ w. w.host)
  cfg ← gets (λ w. w.cfg)
  now ← gets (λ w. stamp w.now)
  req ← decode_json_body body cfg.limits.max_json_body
  stop_if (req.name == "") (json_err 400)
  stop_if ((req.username == "") || (req.password == "")) (json_err 401)
  allow_rate r "device-register" req.username
  stop_if (pair_request_error req.username req.name "" req.vault_id) (json_err 400)
  let vault_id = trim_space req.vault_id
  stop_if (vault_id == "") (json_err 400)
  stop_if (has_prefix vault_id "legacy:") (json_err 400)
  user ← check_credentials (λ user_id message. pure tt) req.username req.password
  id ← draw
  token ← draw
  let d = new_device (concat "dev_" id) req.name token user.id vault_id none none now host
  transaction (do
    exec_unique (device_clash d) internal_error (insert_device d)
    exec (link_device user.id d.id))
  pure (json_ok (registered d.id token))
