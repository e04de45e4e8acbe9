-- ===== src/Device/Forms.antt =====
-- internal/server/handlers_web_user.go: what a user who is logged in does on the dashboard.
use verstak_sync_server.Prelude.{
  String, Bool, not, find, ◌==◌, if◌then◌else◌, has_prefix, has_suffix, trim_prefix, trim_suffix,
}
use verstak_sync_server.Schema.{UserRow, DeviceRow}
use verstak_sync_server.Server.World.{stamp}
use verstak_sync_server.Server.Reply.{
  Reply, json_ok, json_err, json_err_code, internal_error, method_not_allowed, redirect, status_is,
}
use verstak_sync_server.Server.Request.{Request, JsonBody, decode_json_body, value_of}
use verstak_sync_server.Server.Action.{M, ◌>>=◌, ◌>>◌, pure, gets, stop_if, or_stop, query, row_or}
use verstak_sync_server.Audit.{audit_log}
use verstak_sync_server.Proxy.{client_ip}
use verstak_sync_server.Rate.{allow_rate}
use verstak_sync_server.Rate.Forms.{allow_web_rate}
use verstak_sync_server.Session.Store.{WebSession, require_session, delete_session}
use verstak_sync_server.Session.Csrf.{require_user_mutation, verify_csrf}
use verstak_sync_server.Device.Enroll.{revoke_device}
use verstak_sync_server.Admin.Pages.{end_session}

-- handleUserWebLogout
unfoldable pub handle_user_web_logout : Request → M Reply
unfolding require_user_mutation delete_session
handle_user_web_logout r = do
  stop_if (not (r.method == "POST")) method_not_allowed
  require_user_mutation r
  end_session r "user_session"
  pure (redirect 302 "/login")

abbrev pub form_request : Request → Bool
form_request r = has_prefix r.content_type "application/x-www-form-urlencoded"

abbrev pub wrong_password : Reply
wrong_password = redirect 303 "/dashboard?error=error.invalidCredentials"

-- The password of the form, or of the JSON body.
abbrev pub given_password : Request → JsonBody String → M String
given_password r body =
    if form_request r
    then pure (value_of "password" r.form)
    else do cfg ← gets (λ w. w.cfg); decode_json_body body cfg.limits.max_json_body

abbrev pub limit_attempts : Request → String → M (Unit {0})
limit_attempts r subject =
    if form_request r
    then allow_web_rate r "auth-test" subject
    else allow_rate r "auth-test" subject

-- The user's password, and the user's own device.
abbrev pub check_password : Request → String → String → M (Unit {0})
check_password r subject password = do
  host ← gets (λ w. w.host)
  found ← query (λ db. find (λ (u : UserRow). u.id == subject) db.users)
  user ← row_or found internal_error internal_error
  stop_if (not (host.bcrypt_matches user.password_hash password))
      (if form_request r then wrong_password else json_err 403)

abbrev pub check_device : String → String → M (Unit {0})
check_device subject device_id = do
  found ← query (λ db. find (λ (d : DeviceRow). d.id == device_id) db.devices)
  device ← row_or found (json_err 404) (json_err 404)
  owner ← or_stop device.user_id (json_err 404)
  stop_if (not (owner == subject)) (json_err 403)

abbrev pub revoke_own : Request → String → String → M Reply
revoke_own r subject device_id = do
  host ← gets (λ w. w.host)
  cfg ← gets (λ w. w.cfg)
  now ← gets (λ w. stamp w.now)
  revoke_device device_id now
  audit_log "device_revoked" subject device_id (client_ip host cfg r)
      "device revoked from web dashboard"
  pure (
      if form_request r
      then redirect 303 "/dashboard?flash=user.deviceRevoked"
      else json_ok (status_is "revoked"))

-- The guards between the session and the revocation.
abbrev pub device_guards : Request → JsonBody String → String → String → M (Unit {0})
device_guards r body subject device_id = do
  password ← given_password r body
  stop_if (password == "")
      (if form_request r then wrong_password else json_err_code 400 "invalid_request")
  limit_attempts r subject
  check_password r subject password
  check_device subject device_id

abbrev pub device_action : Request → JsonBody String → WebSession → M Reply
device_action r body session = do
  let path = trim_prefix r.path "/api/v1/user/devices/"
  stop_if (not (has_suffix path "/revoke")) (json_err 404)
  let device_id = trim_suffix (trim_suffix path "/revoke") "/"
  device_guards r body session.subject_id device_id
  revoke_own r session.subject_id device_id

-- handleUserWebDeviceAction
unfoldable pub handle_user_web_device_action : Request → JsonBody String → M Reply
unfolding require_session verify_csrf decode_json_body allow_rate allow_web_rate revoke_device
    audit_log
handle_user_web_device_action r body = do
  stop_if (not (r.method == "POST")) method_not_allowed
  session ← require_session r "user"
  verify_csrf r session
  device_action r body session
