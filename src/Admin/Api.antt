-- ===== src/Admin/Api.antt =====
-- internal/server/handlers_admin.go: the JSON API of the administrator.
use verstak_sync_server.Prelude.{
  String, true, false, not, Option, none, List, [], ◌∷◌, ◌==◌, ◌&&◌, ◌||◌, if◌then◌else◌, find,
  trim_prefix, trim_suffix, has_suffix,
}
use verstak_sync_server.Schema.{UserRow}
use verstak_sync_server.Server.World.{stamp}
use verstak_sync_server.Server.Reply.{
  Reply, json_ok, json_err, internal_error, method_not_allowed, redirect, status_is, secret_is,
  blocked_is, user_is,
}
use verstak_sync_server.Server.Request.{Request, JsonBody, decode_json_body, value_of}
use verstak_sync_server.Server.Action.{
  M, ◌>>=◌, ◌>>◌, pure, stop, gets, stop_if, or_stop, exec, exec_all, exec_unique, try_exec, query,
  row_or, draw, transaction,
}
use verstak_sync_server.Session.Csrf.{require_admin_mutation}
use verstak_sync_server.Rate.{allow_rate}
use verstak_sync_server.Rate.Forms.{put_setting}
use verstak_sync_server.Account.Tokens.{password_error, set_password}
use verstak_sync_server.Account.Handlers.{RegisterUser, user_clash, insert_user}
use verstak_sync_server.Admin.Users.{
  set_blocked, edit_clash, edit_user, delete_user, delete_device_statements,
}

-- The id in a path such as `<id>/block`.
abbrev pub id_before : String → String → String
id_before action path = trim_suffix (trim_suffix path action) "/"

-- The action `block`: a user who is blocked already is let in again.
abbrev pub api_block : String → M Reply
api_block id = do
  found ← query (λ db. find (λ (u : UserRow). u.id == id) db.users)
  user ← row_or found (json_err 404) (json_err 404)
  transaction (set_blocked id (not user.blocked))
  pure (json_ok (blocked_is (not user.blocked)))

-- The action `reset-password`
abbrev pub api_reset_password : Request → String → M Reply
api_reset_password r id = do
  allow_rate r "admin-reset" ""
  host ← gets (λ w. w.host)
  password ← draw
  hash ← or_stop (host.bcrypt_hash password 10) internal_error
  exec (set_password id hash)
  pure (json_ok (secret_is password))

pub record EditUser : Type 0 where
  pub username : String
  pub email : String

-- The action `edit`
abbrev pub api_edit : JsonBody EditUser → String → M Reply
api_edit body id = do
  host ← gets (λ w. w.host)
  cfg ← gets (λ w. w.cfg)
  req ← decode_json_body body cfg.limits.max_json_body
  stop_if ((req.username == "") || (req.email == "")) (json_err 400)
  exec_unique (edit_clash id req.username (host.to_lower req.email)) internal_error
      (edit_user id req.username (host.to_lower req.email))
  pure (json_ok (status_is "ok"))

abbrev pub api_delete : String → M Reply
api_delete id = do delete_user id; pure (json_ok (status_is "deleted"))

abbrev pub user_action : Request → JsonBody EditUser → String → M Reply
user_action r body path =
    if has_suffix path "/block" && (r.method == "POST")
    then api_block (id_before "/block" path)
    else if has_suffix path "/reset-password" && (r.method == "POST")
    then api_reset_password r (id_before "/reset-password" path)
    else if has_suffix path "/edit" && (r.method == "POST")
    then api_edit body (id_before "/edit" path)
    else if r.method == "DELETE"
    then api_delete (trim_suffix path "/")
    else stop (json_err 404)

-- handleAdminAPIUserActions
unfoldable pub handle_admin_api_user_actions : Request → JsonBody EditUser → M Reply
unfolding require_admin_mutation decode_json_body allow_rate delete_user
handle_admin_api_user_actions r body = do
  stop_if (not (r.method == "POST") && not (r.method == "DELETE")) method_not_allowed
  require_admin_mutation r
  user_action r body (trim_prefix r.path "/admin/api/users/")

-- handleAdminAPIKeysDelete
unfoldable pub handle_admin_api_keys_delete : Request → M Reply
unfolding require_admin_mutation
handle_admin_api_keys_delete r = do
  stop_if (not (r.method == "DELETE")) method_not_allowed
  require_admin_mutation r
  transaction (exec_all (delete_device_statements (trim_prefix r.path "/admin/api/keys/")))
  pure (json_ok (status_is "deleted"))

-- handleAdminAPICreateUser; the body is read without a limit.
unfoldable pub handle_admin_api_create_user : Request → Option RegisterUser → M Reply
unfolding require_admin_mutation password_error
handle_admin_api_create_user r body = do
  stop_if (not (r.method == "POST")) method_not_allowed
  require_admin_mutation r
  req ← or_stop body (json_err 400)
  stop_if ((req.username == "") || (req.email == "") || (req.password == "")) (json_err 400)
  stop_if (password_error req.password) (json_err 400)
  host ← gets (λ w. w.host)
  now ← gets (λ w. stamp w.now)
  hash ← or_stop (host.bcrypt_hash req.password 10) (json_err 500)
  id ← draw
  let u : UserRow = record {
    id = id;
    username = req.username;
    email = host.to_lower req.email;
    password_hash = hash;
    confirmed = true;
    blocked = false;
    last_seen = none;
    created_at = now;
  }
  exec_unique (user_clash u) (json_err 409) (insert_user u)
  pure (json_ok (user_is id))

-- The loop of handleAdminAPISmtp: an empty field keeps what is stored, a failure is passed over.
abbrev pub store_settings : Request → List String → M (Unit {0})
store_settings r [] = pure tt
store_settings r (key ∷ keys) =
    (if value_of key r.form == ""
      then pure tt
      else try_exec (put_setting key (value_of key r.form)))
    >> store_settings r keys

-- handleAdminAPISmtp
unfoldable pub handle_admin_api_smtp : Request → M Reply
unfolding require_admin_mutation
handle_admin_api_smtp r = do
  stop_if (not (r.method == "POST")) method_not_allowed
  require_admin_mutation r
  stop_if (not r.form_valid) (json_err 400)
  store_settings r (
      "smtp_host" ∷ "smtp_port" ∷ "smtp_user" ∷ "smtp_pass" ∷ "smtp_security" ∷ "smtp_from"
      ∷ "server_url" ∷ [])
  pure (redirect 302 "/admin/dashboard")
