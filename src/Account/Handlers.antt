-- ===== src/Account/Handlers.antt =====
-- internal/server/handlers_auth.go: the user API.
use verstak_sync_server.Prelude.{
  ℕ, ◌*◌, String, Bool, true, false, not, none, [], ◌∷◌, ◌++◌, ◌==◌, ◌||◌, ltb, ◌&&◌, if◌then◌else◌,
  find, any, delete_where, update_where, has_prefix,
}
use verstak_sync_server.Schema.{Db, UserRow, EmailTokenRow}
use verstak_sync_server.Server.World.{stamp, instant}
use verstak_sync_server.Server.Reply.{
  Reply, json_ok, json_err, json_err_code, method_not_allowed, status_is, logged_in, redirect, page,
}
use verstak_sync_server.Server.Request.{Request, JsonBody, decode_json_body, value_of}
use verstak_sync_server.Server.Action.{
  M, ◌>>=◌, ◌>>◌, pure, gets, stop_if, or_stop, exec, exec_unique, query, row_or, draw, transaction,
}
use verstak_sync_server.Rate.{allow_rate}
use verstak_sync_server.Locale.{require_public_web_mutation, web_error}
use verstak_sync_server.Session.Store.{create_session}
use verstak_sync_server.Device.Credentials.{check_credentials}
use verstak_sync_server.Device.Enroll.{see_user}
use verstak_sync_server.Account.Tokens.{
  password_error, normalize_email_address, hour, issue_email_token, reset_password_with_token,
}

pub record RegisterUser : Type 0 where
  pub username : String
  pub email : String
  pub password : String

abbrev pub user_clash : UserRow → Db → Bool
user_clash v db =
    any (λ (u : UserRow). (u.id == v.id) || (u.username == v.username) || (u.email == v.email))
      db.users

abbrev pub insert_user : UserRow → Db → Db
insert_user u db = record db { users = db.users ++ u ∷ [] }

-- handleRegister
unfoldable pub handle_register : Request → JsonBody RegisterUser → M Reply
unfolding decode_json_body allow_rate normalize_email_address password_error issue_email_token
handle_register r body = do
  stop_if (not (r.method == "POST")) method_not_allowed
  host ← gets (λ w. w.host)
  cfg ← gets (λ w. w.cfg)
  now ← gets (λ w. stamp w.now)
  req ← decode_json_body body cfg.limits.max_json_body
  stop_if ((req.username == "") || (req.email == "") || (req.password == "")) (json_err 400)
  email ← or_stop (normalize_email_address host req.email) (json_err 400)
  allow_rate r "register" email
  stop_if (password_error req.password) (json_err 400)
  hash ← or_stop (host.bcrypt_hash req.password 10) (json_err 500)
  id ← draw
  let u : UserRow = record {
    id = id;
    username = req.username;
    email = email;
    password_hash = hash;
    confirmed = false;
    blocked = false;
    last_seen = none;
    created_at = now;
  }
  transaction (do
    exec_unique (user_clash u) (json_err 409) (insert_user u)
    token ← issue_email_token id "confirm" (48 * hour)
    pure tt)
  pure (json_ok (status_is "confirmation_sent"))

abbrev is_json : Request → Bool
is_json r = has_prefix r.content_type "application/json"

-- The answer to a token that does not serve, for a program and for a browser.
abbrev bad_token : Request → Reply
bad_token r = if is_json r then json_err 400 else web_error 400 "error.tryAgain"

abbrev form_token : Request → M String
form_token r = do
  stop_if (not r.form_valid) (json_err_code 400 "invalid_request")
  require_public_web_mutation r
  pure (value_of "token" r.form)

abbrev json_token : JsonBody String → M String
json_token body = do cfg ← gets (λ w. w.cfg); decode_json_body body cfg.limits.max_json_body

abbrev confirm_page : Request → M Reply
confirm_page r =
    if value_of "token" r.params == ""
    then pure (web_error 400 "error.tryAgain")
    else pure (json_ok (page "confirm" (value_of "token" r.params)))

abbrev pub is_confirm : String → EmailTokenRow → Bool
is_confirm h t = (t.token_hash == h) && (t.purpose == "confirm")

-- A token of this kind serves until, and at, the instant when it expires.
abbrev pub confirm_expired : ℕ → EmailTokenRow → Bool
confirm_expired now t = ltb (instant t.expires_at) now

abbrev pub confirm_user : String → Db → Db
confirm_user id db = record db {
  users = update_where (λ u. u.id == id) (λ u. record u { confirmed = true }) db.users;
}

abbrev pub delete_token : String → Db → Db
delete_token h db = record db {
  email_tokens = delete_where (λ t. t.token_hash == h) db.email_tokens;
}

abbrev confirm_post : Request → JsonBody String → M Reply
confirm_post r body = do
  stop_if (not (r.method == "POST")) method_not_allowed
  token ← (if is_json r then json_token body else form_token r)
  stop_if (token == "") (bad_token r)
  host ← gets (λ w. w.host)
  now ← gets (λ w. w.now)
  let h = host.sha256_hex token
  found ← query (λ db. find (is_confirm h) db.email_tokens)
  t ← row_or found (bad_token r) (bad_token r)
  stop_if (confirm_expired now t) (bad_token r)
  transaction (do exec (confirm_user t.user_id); exec (delete_token h))
  pure (if is_json r then json_ok (status_is "confirmed") else redirect 303 "/confirm/result")

-- handleConfirm
unfoldable pub handle_confirm : Request → JsonBody String → M Reply
unfolding decode_json_body require_public_web_mutation
handle_confirm r body = if r.method == "GET" then confirm_page r else confirm_post r body

pub record LoginRequest : Type 0 where
  pub username : String
  pub password : String

-- handleUserLogin
unfoldable pub handle_user_login : Request → JsonBody LoginRequest → M Reply
unfolding decode_json_body allow_rate check_credentials create_session
handle_user_login r body = do
  stop_if (not (r.method == "POST")) method_not_allowed
  cfg ← gets (λ w. w.cfg)
  now ← gets (λ w. stamp w.now)
  req ← decode_json_body body cfg.limits.max_json_body
  stop_if ((req.username == "") || (req.password == "")) (json_err 400)
  allow_rate r "login" req.username
  user ← check_credentials (λ user_id message. pure tt) req.username req.password
  exec (see_user user.id now)
  made ← create_session "user" user.id
  pure (json_ok (logged_in made.0 user.id))

abbrev forgot_answer : Reply
forgot_answer = json_ok (status_is "if email exists, reset link sent")

-- handleForgot
unfoldable pub handle_forgot : Request → JsonBody String → M Reply
unfolding decode_json_body allow_rate issue_email_token
handle_forgot r body = do
  stop_if (not (r.method == "POST")) method_not_allowed
  host ← gets (λ w. w.host)
  cfg ← gets (λ w. w.cfg)
  email ← decode_json_body body cfg.limits.max_json_body
  stop_if (email == "") (json_err 400)
  allow_rate r "forgot" email
  found ← query (λ db. find (λ (u : UserRow). u.email == host.to_lower email) db.users)
  user ← row_or found forgot_answer forgot_answer
  token ← issue_email_token user.id "reset" hour
  pure forgot_answer

pub record ResetRequest : Type 0 where
  pub token : String
  pub new_password : String

-- handleReset
unfoldable pub handle_reset : Request → JsonBody ResetRequest → M Reply
unfolding decode_json_body allow_rate password_error reset_password_with_token
handle_reset r body = do
  stop_if (not (r.method == "POST")) method_not_allowed
  cfg ← gets (λ w. w.cfg)
  req ← decode_json_body body cfg.limits.max_json_body
  stop_if ((req.token == "") || (req.new_password == "")) (json_err 400)
  allow_rate r "reset" ""
  stop_if (password_error req.new_password) (json_err 400)
  user_id ← reset_password_with_token req.token req.new_password
  pure (json_ok (status_is "password reset"))
