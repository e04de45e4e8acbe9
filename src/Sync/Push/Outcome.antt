-- ===== src/Sync/Push/Outcome.antt =====
-- A whole push as one function of the request and the tables.
use verstak_sync_server.Prelude.{ℕ, String, Option, none, some, ◌==◌, if◌then◌else◌, find}
use verstak_sync_server.Schema.{Db, IdempotencyRow}
use verstak_sync_server.Server.World.{World, Host, stamp}
use verstak_sync_server.Server.Reply.{Reply, PushResponse, raw, pushed, json_ok, json_err_code}
use verstak_sync_server.Device.Auth.{AuthenticatedDevice}
use verstak_sync_server.Blob.Owned.{references_error}
use verstak_sync_server.Sync.Contract.{PushRequest, validate_sync_push}
use verstak_sync_server.Sync.Push.Handler.{
  is_cached, add_cached, to_response, no_progress, rejection_status,
}
use verstak_sync_server.Sync.Push.Model.{push_all_db, push_all_progress}

-- The answer that a known key repeats.
unfoldable pub cached_reply : AuthenticatedDevice → String → Db → Option Reply
cached_reply scope key db =
    if key == "" then none else elim (find (is_cached scope key) db.idempotency_keys) [
      | none ↦ none
      | some r ↦ some (json_ok (raw r.response_json))
    ]

abbrev pub new_cached : Host → AuthenticatedDevice → String → ℕ → PushResponse → IdempotencyRow
new_cached host scope key now resp = record {
  user_id = scope.user_id;
  vault_id = scope.vault_id;
  idempotency_key = key;
  response_json = host.marshal_push resp;
  created_at = now;
}

unfoldable pub remembered : Host → AuthenticatedDevice → String → ℕ → PushResponse → Db → Db
remembered host scope key now resp db =
    if key == "" then db else add_cached (new_cached host scope key now resp) db

abbrev pub push_response : AuthenticatedDevice → PushRequest → ℕ → Db → PushResponse
push_response scope req now db =
    to_response (push_all_progress scope req.idempotency_key now req.ops db no_progress)

-- The tables after a push that commits.
abbrev pub committed : Host → AuthenticatedDevice → PushRequest → ℕ → Db → Db
committed host scope req now db =
    remembered host scope req.idempotency_key now (push_response scope req now db)
      (push_all_db scope req.idempotency_key now req.ops db)

abbrev pub or_replay : Option Reply → Option Reply → Reply × Db → Db → Reply × Db
or_replay (some reply) cached done db = (reply, db)
or_replay none (some reply) done db = (reply, db)
or_replay none none done db = done

abbrev pub or_reject : Option String → Reply × Db → Db → Reply × Db
or_reject none next db = next
or_reject (some code) next db = (json_err_code (rejection_status code) code, db)

-- The answer to a push, and the tables after it.
abbrev pub push_spec : World → AuthenticatedDevice → PushRequest → Reply × Db
push_spec w scope req =
    or_reject (validate_sync_push w.host w.cfg.limits req)
      (or_replay (references_error w.host w.db.blob_refs scope req.ops)
        (cached_reply scope req.idempotency_key w.db)
        (
          json_ok (pushed (push_response scope req (stamp w.now) w.db)),
          committed w.host scope req (stamp w.now) w.db,
        )
        w.db)
      w.db
