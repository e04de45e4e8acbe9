-- ===== src/Sync/Push/Steps.antt =====
-- The statements of handleSyncPush for one operation, on the tables.
use verstak_sync_server.Prelude.{
  ℕ, suc, String, Bool, true, false, ◌&&◌, not, none, some, List, [], ◌∷◌, ◌++◌, map, ℤ, exceeds,
  leb, ◌==◌, if◌then◌else◌, select, any, update_where, delete_where,
}
use verstak_sync_server.Schema.{Db, OpRow, TombstoneRow}
use verstak_sync_server.Server.Reply.{Conflict}
use verstak_sync_server.Device.Auth.{AuthenticatedDevice}
use verstak_sync_server.Sync.Contract.{PushOperation}

-- The sequence of a row as SQL orders it: NULL comes first.
abbrev pub sequence_of : OpRow → ℕ
sequence_of r = elim r.server_sequence [ none ↦ 0 | some n ↦ n ]

-- `server_sequence > ?`, which NULL never is.
abbrev pub sequence_above : ℤ → OpRow → Bool
sequence_above bound r = elim r.server_sequence [ none ↦ false | some n ↦ exceeds n bound ]

-- ORDER BY server_sequence
unfoldable pub insert_by_sequence : OpRow → List OpRow → List OpRow
insert_by_sequence r [] = r ∷ []
insert_by_sequence r (x ∷ xs) =
    if leb (sequence_of r) (sequence_of x) then r ∷ x ∷ xs else x ∷ insert_by_sequence r xs

unfoldable pub order_by_sequence : List OpRow → List OpRow
unfolding insert_by_sequence
order_by_sequence [] = []
order_by_sequence (x ∷ xs) = insert_by_sequence x (order_by_sequence xs)

abbrev pub in_scope : AuthenticatedDevice → OpRow → Bool
in_scope scope r = (r.user_id == scope.user_id) && (r.vault_id == scope.vault_id)

-- The WHERE clause of the conflict query.
unfoldable pub is_conflict : AuthenticatedDevice → PushOperation → OpRow → Bool
is_conflict scope op r =
    in_scope scope r
    && (r.entity_type == op.entity_type)
    && (r.entity_id == op.entity_id)
    && not (r.device_id == scope.device_id)
    && sequence_above op.last_seen_server_seq r
    && not (r.op_type == "delete")

abbrev pub to_conflict : PushOperation → OpRow → Conflict
to_conflict op r = record {
  op_id = r.op_id;
  device_id = r.device_id;
  op_type = r.op_type;
  server_sequence = sequence_of r;
  entity_type = op.entity_type;
  entity_id = op.entity_id;
}

unfoldable pub conflicts_of : AuthenticatedDevice → PushOperation → Db → List Conflict
unfolding is_conflict order_by_sequence
conflicts_of scope op db =
    map (to_conflict op) (order_by_sequence (select (is_conflict scope op) db.ops))

-- The row that INSERT OR IGNORE INTO server_ops would add, its sequence still NULL.
abbrev pub new_row : AuthenticatedDevice → String → ℕ → PushOperation → OpRow
new_row scope key now op = record {
  op_id = op.op_id;
  server_sequence = none;
  user_id = scope.user_id;
  vault_id = scope.vault_id;
  device_id = scope.device_id;
  entity_type = op.entity_type;
  entity_id = op.entity_id;
  op_type = op.op_type;
  payload_json = op.payload_json;
  idempotency_key = key;
  client_sequence = op.client_sequence;
  last_seen_server_seq = op.last_seen_server_seq;
  created_at = op.created_at;
  pushed_at = now;
}

abbrev pub has_op_id : String → OpRow → Bool
has_op_id id r = r.op_id == id

-- INSERT OR IGNORE: true if the row was new.
unfoldable pub insert_or_ignore : OpRow → Db → Bool × Db
insert_or_ignore r db =
    if any (has_op_id r.op_id) db.ops
    then (false, db)
    else (true, record db { ops = db.ops ++ r ∷ [] })

-- INSERT INTO server_revisions, and its LastInsertId.
unfoldable pub insert_revision : String → String → Db → ℕ × Db
insert_revision op_id device_id db =
    let id = suc db.last_revision in
    (
      id,
      record db {
        last_revision = id;
        revisions = db.revisions ++ record { id = id; op_id = op_id; device_id = device_id } ∷ [];
      },
    )

unfoldable pub set_sequence : ℕ → String → Db → Db
set_sequence seq op_id db = record db {
  ops = update_where (has_op_id op_id) (λ r. record r { server_sequence = some seq }) db.ops;
}

abbrev pub same_entity : TombstoneRow → TombstoneRow → Bool
same_entity t u =
    (u.user_id == t.user_id)
    && (u.vault_id == t.vault_id)
    && (u.entity_type == t.entity_type)
    && (u.entity_id == t.entity_id)

abbrev pub tombstone : AuthenticatedDevice → ℕ → PushOperation → TombstoneRow
tombstone scope now op = record {
  user_id = scope.user_id;
  vault_id = scope.vault_id;
  entity_type = op.entity_type;
  entity_id = op.entity_id;
  op_id = op.op_id;
  deleted_at = now;
}

-- INSERT OR REPLACE INTO server_tombstones
unfoldable pub replace_tombstone : TombstoneRow → Db → Db
replace_tombstone t db = record db {
  tombstones = delete_where (same_entity t) db.tombstones ++ t ∷ [];
}
