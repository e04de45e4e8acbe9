-- ===== src/Audit.antt =====
-- The audit log; a failure to write it is only reported.
use verstak_sync_server.Prelude.{String, [], ◌∷◌, ◌++◌}
use verstak_sync_server.Server.World.{stamp}
use verstak_sync_server.Server.Action.{M, ◌>>=◌, gets, try_exec}

-- auditLog
unfoldable pub audit_log : String → String → String → String → String → M (Unit {0})
audit_log event user device ip message = do
  now ← gets (λ w. stamp w.now)
  try_exec (λ db. record db {
    audit_log =
        db.audit_log
        ++ record {
          event_type = event;
          user_id = user;
          device_id = device;
          ip = ip;
          message = message;
          created_at = now;
        }
          ∷ [];
  })
