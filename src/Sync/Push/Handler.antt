-- ===== src/Sync/Push/Handler.antt =====
-- handleSyncPush, statement by statement.
use verstak_sync_server.Prelude.{
  ℕ, String, Bool, ◌&&◌, ◌||◌, not, Option, none, some, List, [], ◌∷◌, ◌++◌, pos, ltb_ℤ, ◌==◌,
  if◌then◌else◌, find, length,
}
use verstak_sync_server.Schema.{Db, IdempotencyRow}
use verstak_sync_server.Server.World.{stamp}
use verstak_sync_server.Server.Reply.{
  Reply, Conflict, PushResponse, raw, pushed, json_ok, json_err_code, internal_error,
  method_not_allowed,
}
use verstak_sync_server.Server.Request.{Request, JsonBody, decode_json_body}
use verstak_sync_server.Server.Action.{
  M, ◌>>=◌, ◌>>◌, pure, stop, gets, stop_if, exec, statement, query, query_all, row, no_rows,
  broken, transaction,
}
use verstak_sync_server.Device.Auth.{AuthenticatedDevice, require_sync_scope}
use verstak_sync_server.Blob.Reference.{validate_blob_references}
use verstak_sync_server.Sync.Contract.{PushOperation, PushRequest, validate_sync_push}
use verstak_sync_server.Sync.Push.Steps.{
  conflicts_of, new_row, insert_or_ignore, insert_revision, set_sequence, tombstone,
  replace_tombstone,
}

-- What the loop has gathered so far.
pub record Progress : Type 0 where
  pub accepted : List String
  pub conflicts : List Conflict

-- The part of the loop's body below INSERT OR IGNORE, for a row that was new.
unfoldable pub sequence_op : AuthenticatedDevice → ℕ → PushOperation → Progress → M Progress
sequence_op scope now op p = do
  seq ← statement (insert_revision op.op_id scope.device_id)
  exec (set_sequence seq op.op_id)
  if op.op_type == "delete" then exec (replace_tombstone (tombstone scope now op)) else pure tt
  pure (record p { accepted = p.accepted ++ op.op_id ∷ [] })

-- One round of the loop.
unfoldable pub push_op : AuthenticatedDevice → String → ℕ → PushOperation → Progress → M Progress
unfolding sequence_op
push_op scope key now op p = do
  found ←
      if ltb_ℤ (pos 0) op.last_seen_server_seq then query_all (conflicts_of scope op) else pure []
  let q = record p { conflicts = p.conflicts ++ found }
  inserted ← statement (insert_or_ignore (new_row scope key now op))
  if inserted then sequence_op scope now op q else pure q

unfoldable pub push_ops :
    AuthenticatedDevice → String → ℕ → List PushOperation → Progress → M Progress
unfolding push_op
push_ops scope key now [] p = pure p
push_ops scope key now (op ∷ ops) p =
    push_op scope key now op p >>= λ q. push_ops scope key now ops q

abbrev pub is_cached : AuthenticatedDevice → String → IdempotencyRow → Bool
is_cached scope key r =
    (r.user_id == scope.user_id) && (r.vault_id == scope.vault_id) && (r.idempotency_key == key)

-- A push whose key is known is answered as before; the transaction is not committed.
unfoldable pub replay_cached : AuthenticatedDevice → String → M (Unit {0})
replay_cached scope key = if key == "" then pure tt else do
  found ← query (λ db. find (is_cached scope key) db.idempotency_keys)
  elim found [
    | row cached ↦ stop (json_ok (raw cached.response_json))
    | no_rows ↦ pure tt
    | broken ↦ stop internal_error
  ]

abbrev pub add_cached : IdempotencyRow → Db → Db
add_cached r db = record db { idempotency_keys = db.idempotency_keys ++ r ∷ [] }

unfoldable pub remember : AuthenticatedDevice → String → ℕ → PushResponse → M (Unit {0})
remember scope key now resp = if key == "" then pure tt else do
  host ← gets (λ w. w.host)
  exec (
      add_cached (record {
        user_id = scope.user_id;
        vault_id = scope.vault_id;
        idempotency_key = key;
        response_json = host.marshal_push resp;
        created_at = now;
      }))

abbrev pub to_response : Progress → PushResponse
to_response p = record { accepted = p.accepted; count = length p.accepted; conflicts = p.conflicts }

abbrev pub no_progress : Progress
no_progress = record { accepted = []; conflicts = [] }

-- What runs inside the transaction.
unfoldable pub push_body : AuthenticatedDevice → PushRequest → ℕ → M PushResponse
unfolding replay_cached remember push_ops
push_body scope req now = do
  validate_blob_references scope req.ops
  replay_cached scope req.idempotency_key
  p ← push_ops scope req.idempotency_key now req.ops no_progress
  remember scope req.idempotency_key now (to_response p)
  pure (to_response p)

abbrev pub rejection_status : String → ℕ
rejection_status code =
    if (code == "too_many_operations") || (code == "payload_too_large") then 413 else 400

abbrev pub reject : Option String → M (Unit {0})
reject none = pure tt
reject (some code) = stop (json_err_code (rejection_status code) code)

-- From the authenticated scope on.
unfoldable pub push_scoped : AuthenticatedDevice → PushRequest → M Reply
unfolding push_body
push_scoped scope req = do
  host ← gets (λ w. w.host)
  limits ← gets (λ w. w.cfg.limits)
  reject (validate_sync_push host limits req)
  now ← gets (λ w. stamp w.now)
  resp ← transaction (push_body scope req now)
  pure (json_ok (pushed resp))

-- handleSyncPush
unfoldable pub handle_sync_push : Request → JsonBody PushRequest → M Reply
unfolding push_scoped
handle_sync_push r body = do
  stop_if (not (r.method == "POST")) method_not_allowed
  scope ← require_sync_scope r
  limit ← gets (λ w. w.cfg.limits.max_json_body)
  req ← decode_json_body body limit
  push_scoped scope req
