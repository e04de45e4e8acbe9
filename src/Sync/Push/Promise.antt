-- ===== src/Sync/Push/Promise.antt =====
-- What a push promises, as lists: the rows of the new operations after the log, their revisions,
-- the tombstones of those that delete, the recorded answer, and the conflicts. Nothing here calls
-- the statements of the handler.
use verstak_sync_server.Prelude.{
  ℕ, suc, ◌+◌, String, Bool, false, not, Option, none, some, List, [], ◌∷◌, ◌++◌, map, pos, exceeds,
  ltb_ℤ, ◌==◌, ◌&&◌, ◌||◌, if◌then◌else◌, select, find, length, delete_where,
}
use verstak_sync_server.Schema.{Db, OpRow, RevisionRow, TombstoneRow, IdempotencyRow}
use verstak_sync_server.Server.World.{World, Host, stamp}
use verstak_sync_server.Server.Reply.{
  Reply, Conflict, PushResponse, raw, pushed, json_ok, json_err_code,
}
use verstak_sync_server.Device.Auth.{AuthenticatedDevice}
use verstak_sync_server.Blob.Owned.{references_error}
use verstak_sync_server.Sync.Contract.{PushOperation, PushRequest, validate_sync_push}
use verstak_sync_server.Sync.Push.Model.{fresh, numbered, numbered_row, ids_of, known}

-- One revision for each new operation.
unfoldable pub revisions_of : AuthenticatedDevice → ℕ → List PushOperation → List RevisionRow
revisions_of scope seq [] = []
revisions_of scope seq (op ∷ ops) =
    record { id = seq; op_id = op.op_id; device_id = scope.device_id }
    ∷ revisions_of scope (suc seq) ops

abbrev pub is_about : AuthenticatedDevice → PushOperation → TombstoneRow → Bool
is_about scope op t =
    (t.user_id == scope.user_id)
    && (t.vault_id == scope.vault_id)
    && (t.entity_type == op.entity_type)
    && (t.entity_id == op.entity_id)

-- A deletion puts the only tombstone of its entity at the end.
abbrev pub bury : AuthenticatedDevice → ℕ → PushOperation → List TombstoneRow → List TombstoneRow
bury scope now op ts =
    if op.op_type == "delete"
    then delete_where (is_about scope op) ts
      ++ record {
        user_id = scope.user_id;
        vault_id = scope.vault_id;
        entity_type = op.entity_type;
        entity_id = op.entity_id;
        op_id = op.op_id;
        deleted_at = now;
      }
        ∷ []
    else ts

unfoldable pub buried :
    AuthenticatedDevice → ℕ → List PushOperation → List TombstoneRow → List TombstoneRow
buried scope now [] ts = ts
buried scope now (op ∷ ops) ts = buried scope now ops (bury scope now op ts)

-- The tables with these new operations.
abbrev pub with_operations : AuthenticatedDevice → String → ℕ → List PushOperation → Db → Db
with_operations scope key now news db = record db {
  ops = db.ops ++ numbered scope key now (suc db.last_revision) news;
  last_revision = db.last_revision + length news;
  revisions = db.revisions ++ revisions_of scope (suc db.last_revision) news;
  tombstones = buried scope now news db.tombstones;
}

-- A row that another device of the scope has written on the same entity, after the last sequence
-- that the sender has seen, and that is not a deletion.
abbrev pub meets : AuthenticatedDevice → PushOperation → OpRow → Bool
meets scope op r =
    (r.user_id == scope.user_id)
    && (r.vault_id == scope.vault_id)
    && (r.entity_type == op.entity_type)
    && (r.entity_id == op.entity_id)
    && not (r.device_id == scope.device_id)
    && elim r.server_sequence [ none ↦ false | some n ↦ exceeds n op.last_seen_server_seq ]
    && not (r.op_type == "delete")

abbrev pub conflict_with : PushOperation → OpRow → Conflict
conflict_with op r = record {
  op_id = r.op_id;
  device_id = r.device_id;
  op_type = r.op_type;
  server_sequence = elim r.server_sequence [ none ↦ 0 | some n ↦ n ];
  entity_type = op.entity_type;
  entity_id = op.entity_id;
}

-- A sender that has seen nothing is told of no conflict.
abbrev pub met : AuthenticatedDevice → PushOperation → List OpRow → List Conflict
met scope op log =
    if ltb_ℤ (pos 0) op.last_seen_server_seq
    then map (conflict_with op) (select (meets scope op) log)
    else []

-- Each operation meets the log with the new operations before it.
unfoldable pub conflicts_met :
    AuthenticatedDevice → String → ℕ → ℕ → List OpRow → List PushOperation → List Conflict
conflicts_met scope key now last log [] = []
conflicts_met scope key now last log (op ∷ ops) =
    let after_known = conflicts_met scope key now last log ops in
    let after_new =
      conflicts_met scope key now (suc last) (log ++ numbered_row scope key now (suc last) op ∷ [])
        ops in
    met scope op log ++ (if known op.op_id (ids_of log) then after_known else after_new)

abbrev pub new_operations : PushRequest → Db → List PushOperation
new_operations req db = fresh (ids_of db.ops) req.ops

abbrev pub promised_answer : AuthenticatedDevice → PushRequest → ℕ → Db → PushResponse
promised_answer scope req now db = record {
  accepted = map (λ op. op.op_id) (new_operations req db);
  count = length (new_operations req db);
  conflicts = conflicts_met scope req.idempotency_key now db.last_revision db.ops req.ops;
}

-- The answer is put on record under a key that is not empty.
abbrev pub with_answer : Host → AuthenticatedDevice → String → ℕ → PushResponse → Db → Db
with_answer host scope key now resp db = if key == "" then db else record db {
  idempotency_keys =
      db.idempotency_keys
      ++ record {
        user_id = scope.user_id;
        vault_id = scope.vault_id;
        idempotency_key = key;
        response_json = host.marshal_push resp;
        created_at = now;
      }
        ∷ [];
}

abbrev pub promised_tables : Host → AuthenticatedDevice → PushRequest → ℕ → Db → Db
promised_tables host scope req now db =
    with_answer host scope req.idempotency_key now (promised_answer scope req now db)
      (with_operations scope req.idempotency_key now (new_operations req db) db)

abbrev pub answered_before : AuthenticatedDevice → String → Db → Option Reply
answered_before scope key db =
    if key == ""
    then none
    else elim (find
        (λ (r : IdempotencyRow).
          (r.user_id == scope.user_id)
          && (r.vault_id == scope.vault_id)
          && (r.idempotency_key == key))
        db.idempotency_keys) [ none ↦ none | some r ↦ some (json_ok (raw r.response_json)) ]

-- An answer that changes nothing, or what comes next.
abbrev pub unless : Db → Option Reply → Reply × Db → Reply × Db
unless db (some reply) next = (reply, db)
unless db none next = next

-- Too many operations and too large contents are answered with 413, what else is not valid with 400.
abbrev pub refusal : Option String → Option Reply
refusal none = none
refusal (some code) = some (
    json_err_code
      (if (code == "too_many_operations") || (code == "payload_too_large") then 413 else 400) code)

-- A request that is not valid, a reference that is not in order, and a key that is known change
-- nothing.
abbrev pub promised : World → AuthenticatedDevice → PushRequest → Reply × Db
promised w scope req = unless w.db (refusal (validate_sync_push w.host w.cfg.limits req)) (
    unless w.db (references_error w.host w.db.blob_refs scope req.ops) (
      unless w.db (answered_before scope req.idempotency_key w.db) (
        json_ok (pushed (promised_answer scope req (stamp w.now) w.db)),
        promised_tables w.host scope req (stamp w.now) w.db,
      )))
