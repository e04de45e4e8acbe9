-- ===== src/Session/Store.antt =====
-- internal/server/sessions.go: the sessions on record, by the hash of their token.
use verstak_sync_server.Prelude.{
  ℕ, ◌+◌, ◌*◌, String, Bool, not, Option, none, some, [], ◌∷◌, ◌++◌, ◌==◌, ◌&&◌, ltb, leb,
  if◌then◌else◌, find, any, delete_where, update_where,
}
use verstak_sync_server.Schema.{Db, SessionRow}
use verstak_sync_server.Server.World.{Host, second, stamp, instant}
use verstak_sync_server.Server.Reply.{internal_error, redirect}
use verstak_sync_server.Server.Request.{Request, lookup}
use verstak_sync_server.Server.Action.{
  M, ◌>>=◌, ◌>>◌, pure, gets, stop_if, or_stop, exec, exec_unique, try_exec, query, Row, row, draw,
}

abbrev pub session_lifetime : ℕ
session_lifetime = 24 * 60 * 60 * second

pub record WebSession : Type 0 where
  pub scope : String
  pub subject_id : String
  pub csrf_hash : String
  pub expires_at : ℕ

abbrev pub has_hash : String → SessionRow → Bool
has_hash h s = s.token_hash == h

abbrev pub new_session : Host → String → String → String → String → ℕ → SessionRow
new_session host token csrf scope subject_id now = record {
  token_hash = host.sha256_hex token;
  csrf_hash = host.sha256_hex csrf;
  scope = scope;
  subject_id = subject_id;
  expires_at = stamp (now + session_lifetime);
  created_at = stamp now;
  last_seen = stamp now;
}

abbrev pub add_session : SessionRow → Db → Db
add_session s db = record db { sessions = db.sessions ++ s ∷ [] }

abbrev pub store_session : String → String → String → String → M (String × String)
store_session scope subject_id token csrf = do
  host ← gets (λ w. w.host)
  now ← gets (λ w. w.now)
  exec_unique (λ db. any (has_hash (host.sha256_hex token)) db.sessions) internal_error
      (add_session (new_session host token csrf scope subject_id now))
  pure (token, csrf)

-- createSession: the token and the CSRF value. Only their hashes are kept.
unfoldable pub create_session : String → String → M (String × String)
create_session scope subject_id = do
  stop_if (not (scope == "admin") && not (scope == "user")) internal_error
  token ← draw
  csrf ← draw
  store_session scope subject_id token csrf

abbrev pub is_session : String → String → SessionRow → Bool
is_session h scope s = has_hash h s && (s.scope == scope)

abbrev pub is_expired : ℕ → ℕ → Bool
is_expired now expires_at = not (ltb now (instant expires_at))

abbrev pub forget_session : String → Db → Db
forget_session h db = record db { sessions = delete_where (has_hash h) db.sessions }

abbrev pub see_session : String → ℕ → Db → Db
see_session h now db = record db {
  sessions = update_where (has_hash h) (λ s. record s { last_seen = now }) db.sessions;
}

abbrev pub web_session : SessionRow → WebSession
web_session s = record {
  scope = s.scope;
  subject_id = s.subject_id;
  csrf_hash = s.csrf_hash;
  expires_at = instant s.expires_at;
}

-- What loadSession does with the row that it finds, expired or not.
abbrev pub drop_session : String → M (Option WebSession)
drop_session h = do try_exec (forget_session h); pure none

abbrev pub keep_session : String → ℕ → SessionRow → M (Option WebSession)
keep_session h now s = do try_exec (see_session h (stamp now)); pure (some (web_session s))

abbrev pub use_session : String → SessionRow → M (Option WebSession)
use_session h s = do
  now ← gets (λ w. w.now)
  if is_expired now s.expires_at
      then drop_session h
      else if not (s.token_hash == h)
      then pure none
      else keep_session h now s

abbrev pub with_session : String → Row SessionRow → M (Option WebSession)
with_session h (row s) = use_session h s
with_session h Row.no_rows = pure none
with_session h Row.broken = pure none

-- loadSession
unfoldable pub load_session : String → String → M (Option WebSession)
load_session token scope = if token == "" then pure none else do
  host ← gets (λ w. w.host)
  let h = host.sha256_hex token
  found ← query (λ db. find (is_session h scope) db.sessions)
  with_session h found

-- deleteSession
unfoldable pub delete_session : String → M (Unit {0})
delete_session token =
    if token == ""
    then pure tt
    else do host ← gets (λ w. w.host); exec (forget_session (host.sha256_hex token))

-- deleteSessionsForSubject
unfoldable pub delete_sessions_for_subject : String → String → M (Unit {0})
delete_sessions_for_subject scope subject_id = exec (λ db. record db {
  sessions = delete_where (λ s. (s.scope == scope) && (s.subject_id == subject_id)) db.sessions;
})

abbrev pub expire_sessions : ℕ → Db → Db
expire_sessions now db = record db {
  sessions = delete_where (λ s. leb s.expires_at now) db.sessions;
}

-- cleanupExpiredSessions
unfoldable pub cleanup_expired_sessions : M (Unit {0})
cleanup_expired_sessions = do now ← gets (λ w. stamp w.now); exec (expire_sessions now)

abbrev pub cookie_of : String → String
cookie_of scope = if scope == "admin" then "admin_session" else "user_session"

abbrev pub login_of : String → String
login_of scope = if scope == "admin" then "/admin/login" else "/login"

-- requireSession
unfoldable pub require_session : Request → String → M WebSession
unfolding load_session
require_session r scope = do
  token ← or_stop (lookup (cookie_of scope) r.cookies) (redirect 302 (login_of scope))
  found ← load_session token scope
  or_stop found (redirect 302 (login_of scope))
