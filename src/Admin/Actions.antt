-- ===== src/Admin/Actions.antt =====
-- internal/server/web_admin.go, handleAdminWebAction: the forms of the administrator's pages.
use verstak_sync_server.Prelude.{
  String, not, Option, none, some, List, [], ◌∷◌, ◌==◌, ◌||◌, if◌then◌else◌, find, trim_space,
}
use verstak_sync_server.Schema.{Db, UserRow, DeviceRow}
use verstak_sync_server.Server.World.{stamp}
use verstak_sync_server.Server.Reply.{Reply, internal_error, method_not_allowed, redirect}
use verstak_sync_server.Server.Request.{Request, lookup, value_of}
use verstak_sync_server.Server.Action.{
  M, ◌>>=◌, ◌>>◌, pure, stop, gets, stop_if, or_stop, statement, exec_all, exec_unique, query,
  row_or, draw, transaction,
}
use verstak_sync_server.Locale.{web_error}
use verstak_sync_server.Session.Store.{WebSession, require_session}
use verstak_sync_server.Session.Csrf.{verify_csrf}
use verstak_sync_server.Rate.Forms.{smtp_get, put_setting}
use verstak_sync_server.Device.Auth.{is_some}
use verstak_sync_server.Device.Enroll.{revoke_device}
use verstak_sync_server.Account.Tokens.{normalize_email_address, set_password, has_user}
use verstak_sync_server.Account.Handlers.{confirm_user}
use verstak_sync_server.Retention.{cleanup_retention}
use verstak_sync_server.Admin.Secrets.{keep_secret}
use verstak_sync_server.Admin.Users.{
  end_user_sessions, delete_user, set_blocked, edit_clash, edit_user, delete_device_statements,
}
use verstak_sync_server.Admin.SettingsForm.{report, reauth, web_settings}

abbrev pub flip_blocked : String → M (Unit {0})
flip_blocked id = do
  found ← query (λ db. find (λ (u : UserRow). u.id == id) db.users)
  user ← row_or found (web_error 404 "error.badRequest") internal_error
  set_blocked id (not user.blocked)

abbrev pub toggle_user : Request → String → M Reply
toggle_user r id = do
  transaction (flip_blocked id)
  report r "user_block_changed" id "" "changed by administrator"
  pure (redirect 303 "/admin/users")

abbrev pub edit_user_form : Request → String → String → String → M Reply
edit_user_form r id username text = do
  host ← gets (λ w. w.host)
  stop_if ((id == "") || (username == "") || (host.to_lower text == ""))
      (web_error 400 "error.allFieldsRequired")
  email ←
      or_stop (normalize_email_address host (host.to_lower text))
        (web_error 400 "error.invalidEmail")
  exec_unique (edit_clash id username email) (web_error 409 "error.accountTaken")
      (edit_user id username email)
  report r "user_updated" id "" "updated by administrator"
  pure (redirect 303 "/admin/users")

-- The statement, and whether it changed a row.
abbrev pub confirm_user_form : Request → String → M Reply
confirm_user_form r id = do
  changed ← statement (λ db. (has_user id db, confirm_user id db))
  stop_if (not changed) (web_error 404 "error.badRequest")
  report r "user_confirmed" id "" "confirmed by administrator"
  pure (redirect 303 "/admin/users")

abbrev pub reset_user_password : Request → String → M Reply
reset_user_password r id = do
  host ← gets (λ w. w.host)
  password ← draw
  hash ← or_stop (host.bcrypt_hash password 10) internal_error
  transaction (exec_all (set_password id hash ∷ end_user_sessions id ∷ []))
  report r "user_password_reset" id "" "reset by administrator"
  token ← or_stop (lookup "admin_session" r.cookies) internal_error
  keep_secret token password
  pure (redirect 303 "/admin/password-result")

abbrev pub delete_user_form : Request → String → M Reply
delete_user_form r id = do
  delete_user id
  report r "user_deleted" id "" "deleted by administrator"
  pure (redirect 303 "/admin/users")

abbrev pub revoke_device_form : Request → String → M Reply
revoke_device_form r id = do
  now ← gets (λ w. stamp w.now)
  revoke_device id now
  report r "device_revoked" "" id "revoked by administrator"
  pure (redirect 303 "/admin/devices")

-- The transaction of `delete-device`: only a device that has been revoked may go.
unfoldable pub delete_revoked : String → M (Unit {0})
delete_revoked id = transaction (do
  found ← query (λ db. find (λ (d : DeviceRow). d.id == id) db.devices)
  device ← row_or found (web_error 404 "error.badRequest") internal_error
  stop_if (not (is_some device.revoked_at)) (web_error 409 "error.deviceMustBeRevoked")
  exec_all (delete_device_statements id))

abbrev pub delete_device_form : Request → String → M Reply
delete_device_form r id = do
  delete_revoked id
  report r "device_deleted" "" id "revoked device deleted by administrator"
  pure (redirect 303 "/admin/devices")

abbrev pub smtp_statements : Request → List String → List (Db → Db)
smtp_statements r [] =
    if value_of "smtp_pass" r.form == ""
    then []
    else put_setting "smtp_pass" (value_of "smtp_pass" r.form) ∷ []
smtp_statements r (key ∷ keys) = put_setting key (value_of key r.form) ∷ smtp_statements r keys

abbrev pub smtp_keys : List String
smtp_keys =
    "smtp_host" ∷ "smtp_port" ∷ "smtp_user" ∷ "smtp_security" ∷ "smtp_from" ∷ "server_url" ∷ []

abbrev pub smtp_form : Request → M Reply
smtp_form r = do
  transaction (exec_all (smtp_statements r smtp_keys))
  report r "smtp_settings_updated" "" "" "updated by administrator"
  pure (redirect 303 "/admin/settings?flash=smtp_saved")

abbrev pub test_mail : Request → List String → M Reply
test_mail r args = do
  host ← gets (λ w. w.host)
  if host.mail_sent args
      then (report r "smtp_test_passed" "" "" "tested by administrator"
          >> pure (redirect 303 "/admin/settings?flash=smtp_test_passed"))
      else (report r "smtp_test_failed" "" "" "tested by administrator"
          >> pure (redirect 303 "/admin/settings?flash=smtp_test_failed"))

-- webSMTP, and the test with what it reads.
abbrev pub smtp_test_form : Request → M Reply
smtp_test_form r = do
  name ← smtp_get "smtp_host"
  port ← smtp_get "smtp_port"
  user ← smtp_get "smtp_user"
  security ← smtp_get "smtp_security"
  from ← smtp_get "smtp_from"
  url ← smtp_get "server_url"
  let given = trim_space (value_of "test_to" r.form)
  let to = if given == "" then from else given
  stop_if ((name == "") || (port == "") || (from == "") || (to == ""))
      (redirect 303 "/admin/settings?flash=smtp_test_failed")
  pass ← smtp_get "smtp_pass"
  test_mail r (name ∷ port ∷ user ∷ pass ∷ security ∷ from ∷ to ∷ [])

abbrev pub cleanup_form : Request → M Reply
cleanup_form r = do
  cleanup_retention
  report r "retention_cleanup" "" "" "safe retention cleanup run by administrator"
  pure (redirect 303 "/admin/storage?flash=cleanup_done")

-- The cases of the switch that ask for the password again.
abbrev pub confirmed_action : Request → String → String → Option (M Reply)
confirmed_action r action id =
    if action == "web-settings"
    then some (web_settings r)
    else if action == "toggle-user"
    then some (toggle_user r id)
    else if action == "confirm-user"
    then some (confirm_user_form r id)
    else if action == "reset-user-password"
    then some (reset_user_password r id)
    else if action == "delete-user"
    then some (delete_user_form r id)
    else if action == "revoke-device"
    then some (revoke_device_form r id)
    else if action == "delete-device"
    then some (delete_device_form r id)
    else if action == "smtp"
    then some (smtp_form r)
    else if action == "smtp-test"
    then some (smtp_test_form r)
    else if action == "cleanup"
    then some (cleanup_form r)
    else none

abbrev pub run_action : Request → String → Option (M Reply) → M Reply
run_action r subject (some m) = reauth r subject >> m
run_action r subject none =
    if value_of "action" r.form == "edit-user"
    then edit_user_form r (value_of "id" r.form) (trim_space (value_of "username" r.form))
        (trim_space (value_of "email" r.form))
    else stop (web_error 400 "error.badRequest")

abbrev pub session_action : Request → WebSession → M Reply
session_action r session = do
  stop_if (not r.form_valid) (web_error 400 "error.tryAgain")
  run_action r session.subject_id
      (confirmed_action r (value_of "action" r.form) (value_of "id" r.form))

-- handleAdminWebAction
unfoldable pub handle_admin_web_action : Request → M Reply
unfolding require_session verify_csrf
handle_admin_web_action r = do
  stop_if (not (r.method == "POST")) method_not_allowed
  session ← require_session r "admin"
  verify_csrf r session
  session_action r session
