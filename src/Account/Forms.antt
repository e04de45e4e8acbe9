-- ===== src/Account/Forms.antt =====
-- internal/server/handlers_web_user.go: the pages of a user who has no session yet. Mail, and the
-- tokens that a development server writes to its log, are left out.
use verstak_sync_server.Prelude.{
  String, Bool, false, not, none, find, ◌*◌, ◌==◌, ◌||◌, ◌!=◌, ltb, eqb, if◌then◌else◌, trim_space,
}
use verstak_sync_server.Schema.{UserRow}
use verstak_sync_server.Server.World.{stamp, instant}
use verstak_sync_server.Server.Reply.{Reply, json_ok, method_not_allowed, redirect, page}
use verstak_sync_server.Server.Request.{Request, value_of}
use verstak_sync_server.Server.Action.{
  M, ◌>>=◌, ◌>>◌, pure, stop, gets, stop_if, or_stop, exec_unique_or, query, row, row_or, draw,
  answering,
}
use verstak_sync_server.Locale.{web_error, page_status, require_public_web_mutation}
use verstak_sync_server.Session.Store.{load_session, create_session}
use verstak_sync_server.Rate.Forms.{allow_web_rate}
use verstak_sync_server.Device.Credentials.{is_named}
use verstak_sync_server.Account.Tokens.{
  password_error, normalize_email_address, hour, issue_email_token, is_reset,
  reset_password_with_token,
}
use verstak_sync_server.Account.Handlers.{user_clash, insert_user}
use verstak_sync_server.Admin.Pages.{login_page}

abbrev pub web_failure : Reply
web_failure = web_error 500 "error.internal"

-- A page that is shown again with what is wrong.
abbrev pub shown : String → String → Reply
shown name flash = json_ok (page name flash)

abbrev pub register_post : Request → M Reply
register_post r = do
  stop_if (not r.form_valid) (web_error 400 "error.tryAgain")
  require_public_web_mutation r
  host ← gets (λ w. w.host)
  now ← gets (λ w. stamp w.now)
  let username = trim_space (value_of "username" r.form)
  let text = trim_space (value_of "email" r.form)
  let password = value_of "password" r.form
  stop_if ((username == "") || (text == "") || (password == ""))
      (shown "register" "error.allFieldsRequired")
  email ← or_stop (normalize_email_address host text) (shown "register" "error.invalidEmail")
  allow_web_rate r "register" email
  stop_if (password_error password) (shown "register" "error.passwordInvalid")
  hash ← or_stop (host.bcrypt_hash password 10) web_failure
  id ← draw
  let u : UserRow = record {
    id = id;
    username = username;
    email = email;
    password_hash = hash;
    confirmed = false;
    blocked = false;
    last_seen = none;
    created_at = now;
  }
  exec_unique_or (user_clash u) (shown "register" "error.accountTaken") web_failure (insert_user u)
  token ← answering (λ e. web_failure) (issue_email_token id "confirm" (48 * hour))
  pure (redirect 303 "/register/result")

-- handleUserWebRegister
unfoldable pub handle_user_web_register : Request → M Reply
unfolding require_public_web_mutation normalize_email_address allow_web_rate password_error
    issue_email_token
handle_user_web_register r = do
  cfg ← gets (λ w. w.cfg)
  stop_if (not cfg.web.allow_registration) (web_error 404 "error.registrationDisabled")
  if r.method == "GET"
      then pure (shown "register" "")
      else if r.method == "POST"
      then register_post r
      else stop method_not_allowed

-- A token for the user with this address, if there is one and the query succeeds.
abbrev pub issue_reset : String → M (Unit {0})
issue_reset email = do
  found ← query (λ db. find (λ (u : UserRow). u.email == email) db.users)
  elim found [
    | row u ↦ do token ← answering (λ e. web_failure) (issue_email_token u.id "reset" hour); pure tt
    | _ ↦ pure tt
  ]

abbrev pub forgot_post : Request → M Reply
forgot_post r = do
  stop_if (not r.form_valid) (web_error 400 "error.tryAgain")
  require_public_web_mutation r
  host ← gets (λ w. w.host)
  let email = host.to_lower (trim_space (value_of "email" r.form))
  stop_if (email == "") (shown "forgot" "error.emailRequired")
  allow_web_rate r "forgot" email
  issue_reset email
  pure (redirect 303 "/forgot/sent")

-- handleUserWebForgot
unfoldable pub handle_user_web_forgot : Request → M Reply
unfolding require_public_web_mutation allow_web_rate issue_email_token
handle_user_web_forgot r =
    if r.method == "GET"
    then pure (shown "forgot" "")
    else if r.method == "POST"
    then forgot_post r
    else stop method_not_allowed

-- validResetToken
abbrev pub valid_reset_token : String → M Bool
valid_reset_token token = do
  host ← gets (λ w. w.host)
  now ← gets (λ w. w.now)
  found ← query (λ db. find (is_reset (host.sha256_hex token)) db.email_tokens)
  elim found [ row t ↦ pure (ltb now (instant t.expires_at)) | _ ↦ pure false ]

abbrev pub reset_get : String → M Reply
reset_get token = if token == "" then pure (redirect 302 "/forgot") else do
  valid ← valid_reset_token token
  pure (if valid then shown "reset" token else redirect 302 "/forgot")

-- A token that does not serve is answered as on the first page, anything else is a failure.
abbrev pub reset_failure : Reply → Reply
reset_failure e = if eqb e.status 400 then redirect 302 "/forgot" else web_failure

abbrev pub reset_post : Request → M Reply
reset_post r = do
  stop_if (not r.form_valid) (web_error 400 "error.tryAgain")
  require_public_web_mutation r
  let token = value_of "token" r.form
  let password = value_of "password" r.form
  let confirm = value_of "confirm" r.form
  stop_if ((token == "") || (password == "") || (confirm == ""))
      (shown "reset" "error.allFieldsRequired")
  allow_web_rate r "reset" ""
  stop_if (password_error password) (shown "reset" "error.passwordInvalid")
  stop_if (password != confirm) (shown "reset" "error.passwordMismatch")
  user_id ← answering reset_failure (reset_password_with_token token password)
  pure (redirect 303 "/reset/done")

-- handleUserWebReset
unfoldable pub handle_user_web_reset : Request → M Reply
unfolding require_public_web_mutation allow_web_rate password_error reset_password_with_token
handle_user_web_reset r =
    if r.method == "GET"
    then reset_get (value_of "token" r.params)
    else if r.method == "POST"
    then reset_post r
    else stop method_not_allowed

-- One answer for a name that is not known, a user who may not come in, and a wrong password.
abbrev pub web_credentials : String → String → M UserRow
web_credentials login password = do
  let refusal = page_status "login" "error.invalidCredentials" 401
  host ← gets (λ w. w.host)
  found ← query (λ db. find (is_named host login) db.users)
  user ← row_or found refusal refusal
  stop_if
      (user.blocked || not user.confirmed || not (host.bcrypt_matches user.password_hash password))
      refusal
  pure user

abbrev pub login_post : Request → M Reply
login_post r = do
  stop_if (not r.form_valid) (web_error 400 "error.tryAgain")
  require_public_web_mutation r
  let login = trim_space (value_of "username" r.form)
  allow_web_rate r "login" login
  user ← web_credentials login (value_of "password" r.form)
  made ← answering (λ e. web_failure) (create_session "user" user.id)
  pure (redirect 303 "/dashboard")

-- handleUserWebLogin
unfoldable pub handle_user_web_login : Request → M Reply
unfolding load_session require_public_web_mutation allow_web_rate create_session
handle_user_web_login r =
    if r.method == "GET"
    then login_page r "user" "user_session" "login" "/dashboard"
    else if r.method == "POST"
    then login_post r
    else stop method_not_allowed
