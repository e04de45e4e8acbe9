-- ===== src/Retention.antt =====
-- internal/server/retention.go: what expires by itself: rows of four tables and the
-- uploads that nobody finished.
pub mod Log
use verstak_sync_server.Prelude.{
  ℕ, ◌-◌, ◌*◌, String, Bool, List, leb, ltb, magnitude, delete_where, not, ◌&&◌, suc, [], ◌∷◌, ◌==◌,
  has_prefix, if◌then◌else◌,
}
use verstak_sync_server.Schema.{Db}
use verstak_sync_server.Config.{Retention}
use verstak_sync_server.Server.World.{World, second, stamp}
use verstak_sync_server.Server.Action.{M, ok, halt, ◌>>=◌, ◌>>◌, gets, exec, pure}
use verstak_sync_server.Server.Reply.{internal_error}
use verstak_sync_server.Session.Store.{cleanup_expired_sessions}

abbrev pub hours : ℕ → ℕ
hours n = n * (60 * 60 * second)

abbrev pub expire_tokens : ℕ → Db → Db
expire_tokens now db = record db {
  email_tokens = delete_where (λ t. leb t.expires_at (stamp now)) db.email_tokens;
}

abbrev pub expire_keys : ℕ → Db → Db
expire_keys since db = record db {
  idempotency_keys = delete_where (λ k. ltb k.created_at (stamp since)) db.idempotency_keys;
}

abbrev pub expire_audit : ℕ → Db → Db
expire_audit since db = record db {
  audit_log = delete_where (λ a. ltb a.created_at (stamp since)) db.audit_log;
}

abbrev pub expire_rows : ℕ → Retention → M (Unit {0})
expire_rows now keep = do
  exec (expire_tokens now)
  exec (expire_keys (now - hours (magnitude keep.idempotency_hours)))
  exec (expire_audit (now - hours (24 * magnitude keep.audit_days)))

-- A call of the file system that may fail.
abbrev pub file_call : M (Unit {0})
file_call w =
    (if w.faults w.step then halt internal_error else ok tt, record w { step = suc w.step })

-- os.Remove
abbrev pub remove_entry : String → M (Unit {0})
remove_entry name = do
  file_call
  λ w. (ok tt, record w { entries = delete_where (λ e. e.0 == name) w.entries })

-- strings.HasPrefix(entry.Name(), ".upload-")
abbrev pub is_upload : String → Bool
is_upload name = has_prefix name ".upload-"

-- entry.Info, and the removal of what is older than `since`.
abbrev pub remove_old : ℕ → String → ℕ → M (Unit {0})
remove_old since name modified = do
  file_call
  if ltb modified since then remove_entry name else pure tt

-- The loop over the entries.
abbrev pub remove_stale : ℕ → List (String × ℕ) → M (Unit {0})
remove_stale since [] = pure tt
remove_stale since ((name, modified) ∷ rest) =
    let others = remove_stale since rest in
    if is_upload name then remove_old since name modified >> others else others

-- os.ReadDir and the loop. A directory that is missing has no entry.
abbrev pub remove_uploads : ℕ → M (Unit {0})
remove_uploads since = do file_call; entries ← gets (λ w. w.entries); remove_stale since entries

-- CleanupRetention. The settings are positive after Config.normalize, and AddDate in UTC moves by
-- whole days.
unfoldable pub cleanup_retention : M (Unit {0})
unfolding cleanup_expired_sessions
cleanup_retention = do
  now ← gets (λ w. w.now)
  keep ← gets (λ w. w.cfg.retention)
  cleanup_expired_sessions
  expire_rows now keep
  remove_uploads (now - hours (magnitude keep.temp_upload_hours))
