-- ===== src/Admin/Pages.antt =====
-- internal/server/handlers_admin.go and web_admin.go: the way in and out, and the form for a new
-- user.
use verstak_sync_server.Prelude.{
  String, true, false, not, none, some, ◌==◌, ◌||◌, if◌then◌else◌, trim_space,
}
use verstak_sync_server.Schema.{UserRow}
use verstak_sync_server.Config.Normalize.{check_admin}
use verstak_sync_server.Server.World.{stamp}
use verstak_sync_server.Server.Reply.{
  Reply, json_ok, internal_error, method_not_allowed, redirect, page,
}
use verstak_sync_server.Server.Request.{Request, lookup, value_of}
use verstak_sync_server.Server.Action.{
  M, ◌>>=◌, ◌>>◌, pure, stop, gets, stop_if, or_stop, exec_unique, draw,
}
use verstak_sync_server.Locale.{web_error, page_status, require_public_web_mutation}
use verstak_sync_server.Session.Store.{
  load_session, create_session, require_session, delete_session,
}
use verstak_sync_server.Session.Csrf.{require_admin_mutation}
use verstak_sync_server.Rate.Forms.{allow_web_rate}
use verstak_sync_server.Account.Tokens.{password_error, normalize_email_address}
use verstak_sync_server.Account.Handlers.{user_clash, insert_user}
use verstak_sync_server.Admin.SettingsForm.{report}

-- handleAdminRoot
unfoldable pub handle_admin_root : Request → M Reply
handle_admin_root r = do
  stop_if (not (r.method == "GET")) method_not_allowed
  pure (redirect 302 "/admin/dashboard")

-- A login page, or the way on for who is logged in already.
abbrev pub login_page : Request → String → String → String → String → M Reply
login_page r scope cookie name home = elim (lookup cookie r.cookies) [
  | none ↦ pure (json_ok (page name ""))
  | some token ↦ do
    found ← load_session token scope
    elim found [ none ↦ pure (json_ok (page name "")) | some session ↦ pure (redirect 302 home) ]
]

abbrev pub admin_login_post : Request → M Reply
admin_login_post r = do
  stop_if (not r.form_valid) (web_error 400 "error.tryAgain")
  require_public_web_mutation r
  let user = value_of "username" r.form
  allow_web_rate r "login" user
  host ← gets (λ w. w.host)
  cfg ← gets (λ w. w.cfg)
  stop_if (not (check_admin host user (value_of "password" r.form) cfg))
      (page_status "admin_login" "error.invalidCredentials" 401)
  made ← create_session "admin" user
  pure (redirect 303 "/admin/dashboard")

-- handleAdminLogin
unfoldable pub handle_admin_login : Request → M Reply
unfolding load_session require_public_web_mutation allow_web_rate create_session
handle_admin_login r =
    if r.method == "GET"
    then login_page r "admin" "admin_session" "admin_login" "/admin/dashboard"
    else if r.method == "POST"
    then admin_login_post r
    else stop method_not_allowed

abbrev pub create_user_post : Request → M Reply
create_user_post r = do
  require_admin_mutation r
  stop_if (not r.form_valid) (web_error 400 "error.tryAgain")
  host ← gets (λ w. w.host)
  now ← gets (λ w. stamp w.now)
  let username = trim_space (value_of "username" r.form)
  let text = trim_space (value_of "email" r.form)
  let password = value_of "password" r.form
  stop_if ((username == "") || (text == "") || (password == ""))
      (json_ok (page "admin_create_user" "error.allFieldsRequired"))
  email ←
      or_stop (normalize_email_address host text)
        (json_ok (page "admin_create_user" "error.invalidEmail"))
  stop_if (password_error password) (json_ok (page "admin_create_user" "error.passwordInvalid"))
  hash ← or_stop (host.bcrypt_hash password 10) internal_error
  id ← draw
  let u : UserRow = record {
    id = id;
    username = username;
    email = host.to_lower email;
    password_hash = hash;
    confirmed = true;
    blocked = false;
    last_seen = none;
    created_at = now;
  }
  exec_unique (user_clash u) (json_ok (page "admin_create_user" "error.accountTaken"))
      (insert_user u)
  report r "user_created" id "" "created by administrator"
  pure (redirect 303 "/admin/users")

-- handleAdminCreateUserWeb
unfoldable pub handle_admin_create_user_web : Request → M Reply
unfolding require_session require_admin_mutation normalize_email_address password_error
handle_admin_create_user_web r = do
  session ← require_session r "admin"
  if r.method == "GET"
      then pure (json_ok (page "admin_create_user" ""))
      else if r.method == "POST"
      then create_user_post r
      else stop method_not_allowed

-- The end of the session that the cookie names.
abbrev pub end_session : Request → String → M (Unit {0})
end_session r cookie = elim (lookup cookie r.cookies) [
  | none ↦ pure tt
  | some token ↦ delete_session token
]

-- handleAdminWebLogout
unfoldable pub handle_admin_web_logout : Request → M Reply
unfolding require_admin_mutation delete_session
handle_admin_web_logout r = do
  stop_if (not (r.method == "POST")) method_not_allowed
  require_admin_mutation r
  end_session r "admin_session"
  pure (redirect 303 "/admin/login")
