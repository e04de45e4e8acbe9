-- ===== src/Device/Manage.antt =====
-- The handlers of handlers_api.go for a device or a user who is already known.
use verstak_sync_server.Prelude.{String, not, Option, ◌==◌, ◌||◌, find}
use verstak_sync_server.Schema.{Db, DeviceRow, UserRow}
use verstak_sync_server.Server.World.{stamp}
use verstak_sync_server.Server.Reply.{
  Reply, json_ok, json_err, method_not_allowed, status_is, nothing, device_is,
}
use verstak_sync_server.Server.Request.{Request, JsonBody, decode_json_body}
use verstak_sync_server.Server.Action.{
  M, ◌>>=◌, ◌>>◌, pure, gets, stop_if, or_stop, query, row, row_or, Row,
}
use verstak_sync_server.Audit.{audit_log}
use verstak_sync_server.Proxy.{client_ip}
use verstak_sync_server.Rate.{allow_rate}
use verstak_sync_server.Device.Auth.{authenticate_device}
use verstak_sync_server.Device.Credentials.{check_credentials}
use verstak_sync_server.Device.Enroll.{revoke_device}

pub record AuthTest : Type 0 where
  pub username : String
  pub password : String

-- handleAuthTest
unfoldable pub handle_auth_test : Request → JsonBody AuthTest → M Reply
unfolding decode_json_body allow_rate check_credentials
handle_auth_test r body = do
  stop_if (not (r.method == "POST")) (json_err 405)
  cfg ← gets (λ w. w.cfg)
  req ← decode_json_body body cfg.limits.max_json_body
  stop_if ((req.username == "") || (req.password == "")) (json_err 400)
  allow_rate r "auth-test" req.username
  user ← check_credentials (λ user_id message. pure tt) req.username req.password
  pure (json_ok (status_is "ok"))

-- handleClientRevoke
unfoldable pub handle_client_revoke : Request → M Reply
unfolding authenticate_device revoke_device audit_log
handle_client_revoke r = do
  stop_if (not (r.method == "POST")) (json_err 405)
  device ← authenticate_device r
  host ← gets (λ w. w.host)
  cfg ← gets (λ w. w.cfg)
  now ← gets (λ w. stamp w.now)
  revoke_device device.device_id now
  audit_log "device_revoked" device.user_id device.device_id (client_ip host cfg r)
      "device revoked by user"
  pure (json_ok (status_is "revoked"))

pub record RevokeDevice : Type 0 where
  pub device_id : String
  pub password : String

-- What is read from a row whose absence and whose failure are answered alike.
abbrev one_row {ℓ} : {A : Type ℓ} → (Db → Option A) → Reply → M A
one_row f missing = do found ← query f; row_or found missing missing

-- handleClientRevokeDevice. A device without a user gets an empty answer with status 200.
unfoldable pub handle_client_revoke_device : Request → JsonBody RevokeDevice → M Reply
unfolding decode_json_body allow_rate authenticate_device revoke_device audit_log
handle_client_revoke_device r body = do
  stop_if (not (r.method == "POST")) (json_err 405)
  device ← authenticate_device r
  stop_if (device.user_id == "") (json_ok nothing)
  host ← gets (λ w. w.host)
  cfg ← gets (λ w. w.cfg)
  now ← gets (λ w. stamp w.now)
  req ← decode_json_body body cfg.limits.max_json_body
  stop_if ((req.device_id == "") || (req.password == "")) (json_err 400)
  allow_rate r "auth-test" device.user_id
  user ← one_row (λ db. find (λ (u : UserRow). u.id == device.user_id) db.users) (json_err 403)
  stop_if (not (host.bcrypt_matches user.password_hash req.password)) (json_err 403)
  target ← one_row (λ db. find (λ (d : DeviceRow). d.id == req.device_id) db.devices) (json_err 404)
  owner ← or_stop target.user_id (json_err 404)
  stop_if (not (owner == device.user_id)) (json_err 403)
  revoke_device req.device_id now
  audit_log "device_revoked" device.user_id req.device_id (client_ip host cfg r)
      "device revoked via API"
  pure (json_ok (status_is "revoked"))

-- The name of a user whose row may be missing.
abbrev name_of : Row UserRow → String
name_of (row u) = u.username
name_of Row.no_rows = ""
name_of Row.broken = ""

-- handleClientMe
unfoldable pub handle_client_me : Request → M Reply
unfolding authenticate_device
handle_client_me r = do
  stop_if (not (r.method == "GET")) method_not_allowed
  device ← authenticate_device r
  d ← one_row (λ db. find (λ (d : DeviceRow). d.id == device.device_id) db.devices) (json_err 401)
  owner ← or_stop d.user_id (json_err 401)
  user ← query (λ db. find (λ (u : UserRow). u.id == owner) db.users)
  pure (json_ok (device_is (name_of user) d))
