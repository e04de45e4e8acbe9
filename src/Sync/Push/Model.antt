-- ===== src/Sync/Push/Model.antt =====
-- What a push means for the operation log, with no statements: `fresh` operations are those
-- whose id is new, and they are added at the end, numbered from the next revision on.
use verstak_sync_server.Prelude.{
  ℕ, suc, ◌+◌, ◌≡◌, refl, sym, ◌∙◌, subst, String, Bool, true, false, List, [], ◌∷◌, ◌++◌, map,
  some, arith, ltb_ℤ, pos, ◌==◌, eq_iff, if◌then◌else◌, any, length, update_where, Bool-cases, inl,
  inr,
}
use mathlib.Core.List.{append-nil, append_assoc, map-append}
use verstak_sync_server.Schema.{Db, OpRow}
use verstak_sync_server.Device.Auth.{AuthenticatedDevice}
use verstak_sync_server.Sync.Contract.{PushOperation}
use verstak_sync_server.Sync.Push.Steps.{
  new_row, has_op_id, insert_or_ignore, insert_revision, set_sequence, replace_tombstone, tombstone,
  conflicts_of,
}
use verstak_sync_server.Sync.Push.Handler.{Progress}

-- One operation on the tables: the statements of the loop's body in their order.
unfoldable pub sequence_db : AuthenticatedDevice → ℕ → PushOperation → Db → Db
sequence_db scope now op db =
    let (seq, db') = insert_revision op.op_id scope.device_id db in
    let db'' = set_sequence seq op.op_id db' in
    if op.op_type == "delete" then replace_tombstone (tombstone scope now op) db'' else db''

unfoldable pub push_db : AuthenticatedDevice → String → ℕ → PushOperation → Db → Db
unfolding sequence_db
push_db scope key now op db =
    let (inserted, db') = insert_or_ignore (new_row scope key now op) db in
    if inserted then sequence_db scope now op db' else db

unfoldable pub push_all_db : AuthenticatedDevice → String → ℕ → List PushOperation → Db → Db
unfolding push_db
push_all_db scope key now [] db = db
push_all_db scope key now (op ∷ ops) db =
    push_all_db scope key now ops (push_db scope key now op db)

-- What the loop's body adds to the answer.
unfoldable pub push_progress : AuthenticatedDevice → PushOperation → Db → Progress → Progress
push_progress scope op db p = record {
  accepted = if any (has_op_id op.op_id) db.ops then p.accepted else p.accepted ++ op.op_id ∷ [];
  conflicts =
      p.conflicts
      ++ (if ltb_ℤ (pos 0) op.last_seen_server_seq then conflicts_of scope op db else []);
}

unfoldable pub push_all_progress :
    AuthenticatedDevice → String → ℕ → List PushOperation → Db → Progress → Progress
unfolding push_progress push_db
push_all_progress scope key now [] db p = p
push_all_progress scope key now (op ∷ ops) db p =
    push_all_progress scope key now ops (push_db scope key now op db) (push_progress scope op db p)

abbrev pub ids_of : List OpRow → List String
ids_of = map (λ r. r.op_id)

abbrev pub known : String → List String → Bool
known id = any (λ s. s == id)

-- The operations of a push whose id is not among the known ones, nor earlier in the push.
unfoldable pub fresh : List String → List PushOperation → List PushOperation
fresh ids [] = []
fresh ids (op ∷ ops) =
    if known op.op_id ids then fresh ids ops else op ∷ fresh (ids ++ op.op_id ∷ []) ops

abbrev pub numbered_row : AuthenticatedDevice → String → ℕ → ℕ → PushOperation → OpRow
numbered_row scope key now seq op = record {
  op_id = op.op_id;
  server_sequence = some seq;
  user_id = scope.user_id;
  vault_id = scope.vault_id;
  device_id = scope.device_id;
  entity_type = op.entity_type;
  entity_id = op.entity_id;
  op_type = op.op_type;
  payload_json = op.payload_json;
  idempotency_key = key;
  client_sequence = op.client_sequence;
  last_seen_server_seq = op.last_seen_server_seq;
  created_at = op.created_at;
  pushed_at = now;
}

unfoldable pub numbered : AuthenticatedDevice → String → ℕ → ℕ → List PushOperation → List OpRow
numbered scope key now seq [] = []
numbered scope key now seq (op ∷ ops) =
    numbered_row scope key now seq op ∷ numbered scope key now (suc seq) ops

pub any-known : (id : String) (rows : List OpRow) → any (has_op_id id) rows ≡ known id (ids_of rows)
any-known id [] = refl
any-known id (r ∷ rs) = rw (any-known id rs)

pub update-fresh :
    (id : String) (seq : ℕ) (rows : List OpRow) (r : OpRow)
    → any (has_op_id id) rows ≡ false
    → r.op_id ≡ id
    → update_where (has_op_id id) (λ x. record x { server_sequence = some seq }) (rows ++ r ∷ [])
      ≡ rows ++ record r { server_sequence = some seq } ∷ []
update-fresh id seq [] r h e = ground (arith, eq_iff r.op_id id)
update-fresh id seq (x ∷ rs) r h e = ground (arith, update-fresh id seq rs r, eq_iff x.op_id id)

-- A known operation changes nothing.
pub push_db-known :
    (scope : AuthenticatedDevice) (key : String) (now : ℕ) (op : PushOperation) (db : Db)
    → known op.op_id (ids_of db.ops) ≡ true
    → push_db scope key now op db ≡ db
unfolding push_db insert_or_ignore
push_db-known scope key now op db h = rw (any-known op.op_id db.ops, h)

-- A fresh one is added with the next revision as its sequence.
pub push_db-fresh :
    (scope : AuthenticatedDevice) (key : String) (now : ℕ) (op : PushOperation) (db : Db)
    → known op.op_id (ids_of db.ops) ≡ false
    → let db' = push_db scope key now op db in
      (db'.ops ≡ db.ops ++ numbered_row scope key now (suc db.last_revision) op ∷ [])
      × (db'.last_revision ≡ suc db.last_revision)
unfolding push_db sequence_db insert_or_ignore insert_revision set_sequence replace_tombstone
push_db-fresh scope key now op db h =
    let absent : any (has_op_id op.op_id) db.ops ≡ false = any-known op.op_id db.ops ∙ h in
    elim (Bool-cases (op.op_type == "delete")) [
      | inl e ↦
          rw (absent, e)
            (
              update-fresh op.op_id (suc db.last_revision) db.ops (new_row scope key now op) absent
                  refl,
              refl,
            )
      | inr e ↦
          rw (absent, e)
            (
              update-fresh op.op_id (suc db.last_revision) db.ops (new_row scope key now op) absent
                  refl,
              refl,
            )
    ]

pub ids_of-append : (xs ys : List OpRow) → ids_of (xs ++ ys) ≡ ids_of xs ++ ids_of ys
ids_of-append xs ys = map-append (λ r. r.op_id) xs ys

-- One fresh operation, and then the rest.
extend_log :
    (scope : AuthenticatedDevice) (key : String) (now : ℕ) (op : PushOperation)
    (ops : List PushOperation) (rows rows' final : List OpRow) (last last' : ℕ)
    → rows' ≡ rows ++ numbered_row scope key now (suc last) op ∷ []
    → last' ≡ suc last
    → final ≡ rows' ++ numbered scope key now (suc last') (fresh (ids_of rows') ops)
    → final
      ≡ rows
        ++ (numbered_row scope key now (suc last) op
            ∷ numbered scope key now (suc (suc last)) (fresh (ids_of rows ++ op.op_id ∷ []) ops))
extend_log scope key now op ops rows rows' final last last' e l h =
    h
    ∙ rw (e, l, ids_of-append rows (numbered_row scope key now (suc last) op ∷ []))
        (append_assoc rows (numbered_row scope key now (suc last) op ∷ []) _)

extend_count :
    (op : PushOperation) (ops : List PushOperation) (rows : List OpRow) (row : OpRow)
    (rows' : List OpRow) (last last' final : ℕ)
    → rows' ≡ rows ++ row ∷ []
    → row.op_id ≡ op.op_id
    → last' ≡ suc last
    → final ≡ last' + length (fresh (ids_of rows') ops)
    → final ≡ last + suc (length (fresh (ids_of rows ++ op.op_id ∷ []) ops))
extend_count op ops rows row rows' last last' final e i l h =
    h ∙ rw (e, l, ids_of-append rows (row ∷ []), i) (omega arith)

abbrev Logged : AuthenticatedDevice → String → ℕ → Db → List PushOperation → Db → Type 0
Logged scope key now db new after =
    (after.ops ≡ db.ops ++ numbered scope key now (suc db.last_revision) new)
    × (after.last_revision ≡ db.last_revision + length new)

-- The log after a push: the log before it, and the fresh operations in their order, numbered.
pub push_all_db-log :
    (scope : AuthenticatedDevice) (key : String) (now : ℕ) (ops : List PushOperation) (db : Db)
    → let new = fresh (ids_of db.ops) ops in
      let after = push_all_db scope key now ops db in
      (after.ops ≡ db.ops ++ numbered scope key now (suc db.last_revision) new)
      × (after.last_revision ≡ db.last_revision + length new)
unfolding push_all_db fresh numbered
push_all_db-log scope key now [] db = (sym (append-nil db.ops), omega arith)
push_all_db-log scope key now (op ∷ ops) db = elim (Bool-cases (known op.op_id (ids_of db.ops))) [
  | inl e ↦ rw e (
      subst
        (λ d. Logged scope key now db (fresh (ids_of db.ops) ops) (push_all_db scope key now ops d))
        (sym (push_db-known scope key now op db e)) (push_all_db-log scope key now ops db))
  | inr e ↦
      let step = push_db-fresh scope key now op db e in
      let rest = push_all_db-log scope key now ops (push_db scope key now op db) in
      rw e (
        extend_log scope key now op ops db.ops _ _ db.last_revision _ step.0 step.1 rest.0,
        extend_count op ops db.ops (numbered_row scope key now (suc db.last_revision) op) _
            db.last_revision _ _ step.0 refl step.1 rest.1,
      )
]
