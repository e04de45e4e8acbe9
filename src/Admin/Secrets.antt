-- ===== src/Admin/Secrets.antt =====
-- internal/server/web_admin.go: a generated password waits in memory, for five minutes at most,
-- until the administrator whose session asked for it takes it. The map is a list with distinct
-- keys.
use verstak_sync_server.Prelude.{
  ℕ, ◌+◌, ◌*◌, String, not, Option, none, some, List, [], ◌∷◌, ◌==◌, ltb, if◌then◌else◌,
  delete_where,
}
use verstak_sync_server.Server.World.{World, OneTimeWebSecret, second}
use verstak_sync_server.Server.Reply.{
  Reply, json_ok, json_err_code, method_not_allowed, secret_is, page,
}
use verstak_sync_server.Server.Request.{Request, lookup}
use verstak_sync_server.Server.Action.{M, ok, ◌>>=◌, ◌>>◌, pure, stop_if, or_stop}
use verstak_sync_server.Session.Store.{require_session}
use verstak_sync_server.Session.Csrf.{require_admin_mutation}

abbrev pub Secrets : Type 0
Secrets = List (String × OneTimeWebSecret)

abbrev pub secret_lifetime : ℕ
secret_lifetime = 5 * 60 * second

-- The loop that drops what has expired.
abbrev pub purge : ℕ → Secrets → Secrets
purge now = delete_where (λ b. not (ltb now b.1.expires_at))

-- s.webSecrets[key] = secret
abbrev pub put_secret : String → OneTimeWebSecret → Secrets → Secrets
put_secret key v [] = (key, v) ∷ []
put_secret key v ((k, u) ∷ m) = if k == key then (k, v) ∷ m else (k, u) ∷ put_secret key v m

-- delete(s.webSecrets, key)
abbrev pub remove_secret : String → Secrets → Secrets
remove_secret key = delete_where (λ b. b.0 == key)

-- What is left of an entry when it is taken.
abbrev pub secret_at : ℕ → Option OneTimeWebSecret → String
secret_at now none = ""
secret_at now (some v) = if ltb now v.expires_at then v.value else ""

-- storeAdminOneTimeSecret
unfoldable pub store_secret : String → String → World → World
store_secret session_token secret w = record w {
  web_secrets =
      put_secret (w.host.sha256_hex session_token)
        (record { value = secret; expires_at = w.now + secret_lifetime })
        (purge w.now w.web_secrets);
}

-- takeAdminOneTimeSecret: the secret, or the empty text.
unfoldable pub take_secret : String → World → String × World
take_secret session_token w =
    let key = w.host.sha256_hex session_token in
    (
      secret_at w.now (lookup key w.web_secrets),
      record w { web_secrets = remove_secret key w.web_secrets },
    )

-- The same as parts of a handler.
abbrev pub keep_secret : String → String → M (Unit {0})
keep_secret session_token secret w = (ok tt, store_secret session_token secret w)

abbrev pub fetch_secret : String → M String
fetch_secret session_token w = let (s, after) = take_secret session_token w in (ok s, after)

-- handleAdminPasswordResult
unfoldable pub handle_admin_password_result : Request → M Reply
unfolding require_session
handle_admin_password_result r = do
  stop_if (not (r.method == "GET")) method_not_allowed
  session ← require_session r "admin"
  pure (json_ok (page "admin_password_result" ""))

-- handleAdminPasswordResultSecret
unfoldable pub handle_admin_password_result_secret : Request → M Reply
unfolding require_admin_mutation take_secret
handle_admin_password_result_secret r = do
  stop_if (not (r.method == "POST")) method_not_allowed
  require_admin_mutation r
  token ← or_stop (lookup "admin_session" r.cookies) (json_err_code 403 "session_invalid")
  secret ← fetch_secret token
  stop_if (secret == "") (json_err_code 410 "one_time_secret_expired")
  pure (json_ok (secret_is secret))
