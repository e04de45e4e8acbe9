-- ===== src/Sync/Push/Kept.antt =====
-- The handler keeps the promise of a push.
use verstak_sync_server.Prelude.{
  Option, none, some, ℕ, suc, ◌+◌, ◌≡◌, refl, ap, ◌∙◌, String, true, false, List, [], ◌∷◌, ◌++◌,
  map, ltb_ℤ, pos, ◌==◌, if◌then◌else◌, any, length, select, arith, Bool-cases, inl, inr,
  length-map,
}
use mathlib.Core.List.{append-nil, append_assoc}
use verstak_sync_server.Schema.{Db}
use verstak_sync_server.Server.World.{World, stamp}
use verstak_sync_server.Server.Reply.{Reply, Conflict, PushResponse, json_ok, pushed}
use verstak_sync_server.Server.Action.{answer}
use verstak_sync_server.Server.Faults.{quiet}
use verstak_sync_server.Device.Auth.{AuthenticatedDevice}
use verstak_sync_server.Blob.Owned.{references_error}
use verstak_sync_server.Sync.Contract.{PushOperation, PushRequest, validate_sync_push}
use verstak_sync_server.Sync.Push.Steps.{
  has_op_id, insert_or_ignore, insert_revision, set_sequence, replace_tombstone, is_conflict,
  conflicts_of, new_row,
}
use verstak_sync_server.Sync.Push.Handler.{Progress, push_scoped, to_response, no_progress}
use verstak_sync_server.Sync.Push.Model.{
  push_db, sequence_db, push_all_db, push_db-known, push_progress, push_all_progress, numbered,
  numbered_row, fresh, ids_of, known, any-known, ids_of-append, update-fresh,
}
use verstak_sync_server.Sync.Push.Outcome.{
  cached_reply, remembered, push_response, committed, or_replay, or_reject,
}
use verstak_sync_server.Sync.Push.Spec.{push_meets_spec}
use verstak_sync_server.Sync.Push.Promise.{
  unless, refusal, answered_before, revisions_of, buried, bury, with_operations, met, conflicts_met,
  new_operations, promised_answer, promised_tables, promised,
}
use verstak_sync_server.Sync.Log.{LogIsValid, push-LogIsValid, Sequenced-select, order-Sequenced}

-- A new operation, with its row, its revision and its tombstone.
one_new :
    (scope : AuthenticatedDevice) (key : String) (now : ℕ) (op : PushOperation) (db : Db)
    → known op.op_id (ids_of db.ops) ≡ false
    → push_db scope key now op db ≡ record db {
      ops = db.ops ++ numbered_row scope key now (suc db.last_revision) op ∷ [];
      last_revision = suc db.last_revision;
      revisions =
          db.revisions
          ++ record { id = suc db.last_revision; op_id = op.op_id; device_id = scope.device_id }
            ∷ [];
      tombstones = bury scope now op db.tombstones;
    }
unfolding push_db sequence_db insert_or_ignore insert_revision set_sequence replace_tombstone
one_new scope key now op db h =
    let absent : any (has_op_id op.op_id) db.ops ≡ false = any-known op.op_id db.ops ∙ h in
    let rows =
      update-fresh op.op_id (suc db.last_revision) db.ops (new_row scope key now op) absent refl in
    elim (Bool-cases (op.op_type == "delete")) [
      | inl e ↦ rw (absent, e, rows) refl
      | inr e ↦ rw (absent, e, rows) refl
    ]

-- The new operations one after the other.
with_more :
    (scope : AuthenticatedDevice) (key : String) (now : ℕ) (op : PushOperation)
    (news : List PushOperation) (db : Db)
    → with_operations scope key now news (record db {
      ops = db.ops ++ numbered_row scope key now (suc db.last_revision) op ∷ [];
      last_revision = suc db.last_revision;
      revisions =
          db.revisions
          ++ record { id = suc db.last_revision; op_id = op.op_id; device_id = scope.device_id }
            ∷ [];
      tombstones = bury scope now op db.tombstones;
    })
      ≡ with_operations scope key now (op ∷ news) db
unfolding numbered revisions_of buried
with_more scope key now op news db =
    let count : suc db.last_revision + length news ≡ db.last_revision + suc (length news) =
      omega arith in
    rw
      (
        append_assoc db.ops (numbered_row scope key now (suc db.last_revision) op ∷ []) _,
        append_assoc db.revisions
            (record { id = suc db.last_revision; op_id = op.op_id; device_id = scope.device_id }
              ∷ [])
            _,
        count,
      )
      refl

push_all_db-with_operations :
    (scope : AuthenticatedDevice) (key : String) (now : ℕ) (ops : List PushOperation) (db : Db)
    → push_all_db scope key now ops db
      ≡ with_operations scope key now (fresh (ids_of db.ops) ops) db
unfolding push_all_db fresh numbered revisions_of buried
push_all_db-with_operations scope key now [] db =
    let count : db.last_revision + 0 ≡ db.last_revision = omega arith in
    rw (append-nil db.ops, append-nil db.revisions, count) refl
push_all_db-with_operations scope key now (op ∷ ops) db =
    elim (Bool-cases (known op.op_id (ids_of db.ops))) [
      | inl e ↦ rw e (
          ap (push_all_db scope key now ops) (push_db-known scope key now op db e)
          ∙ push_all_db-with_operations scope key now ops db)
      | inr e ↦
          let row = numbered_row scope key now (suc db.last_revision) op in
          let after = push_db scope key now op db in
          let step = one_new scope key now op db e in
          let ids : ids_of after.ops ≡ ids_of db.ops ++ op.op_id ∷ [] =
            ap (λ (d : Db). ids_of d.ops) step ∙ ids_of-append db.ops (row ∷ []) in
          rw e (
            push_all_db-with_operations scope key now ops after
            ∙ ap (λ s. with_operations scope key now (fresh s ops) after) ids
            ∙ ap (with_operations scope key now (fresh (ids_of db.ops ++ op.op_id ∷ []) ops)) step
            ∙ with_more scope key now op (fresh (ids_of db.ops ++ op.op_id ∷ []) ops) db)
    ]

-- The conflict query gives the rows that the operation meets, in the order of the log.
conflicts_of-met :
    (scope : AuthenticatedDevice) (op : PushOperation) (db : Db)
    → LogIsValid db
    → (if ltb_ℤ (pos 0) op.last_seen_server_seq then conflicts_of scope op db else [])
      ≡ met scope op db.ops
unfolding conflicts_of is_conflict
conflicts_of-met scope op db v =
    let sorted =
      order-Sequenced 0 (select (is_conflict scope op) db.ops) db.last_revision
        (Sequenced-select (is_conflict scope op) 0 db.ops db.last_revision v.ordered) in
    elim (Bool-cases (ltb_ℤ (pos 0) op.last_seen_server_seq)) [
      | inl e ↦ rw (e, sorted) refl
      | inr e ↦ rw e refl
    ]

abbrev promised_progress :
    AuthenticatedDevice → String → ℕ → List PushOperation → Db → Progress → Progress
promised_progress scope key now ops db p = record {
  accepted = p.accepted ++ map (λ op. op.op_id) (fresh (ids_of db.ops) ops);
  conflicts = p.conflicts ++ conflicts_met scope key now db.last_revision db.ops ops;
}

progress_known :
    (scope : AuthenticatedDevice) (op : PushOperation) (db : Db) (p : Progress)
    → LogIsValid db
    → known op.op_id (ids_of db.ops) ≡ true
    → push_progress scope op db p ≡ record p { conflicts = p.conflicts ++ met scope op db.ops }
unfolding push_progress
progress_known scope op db p v e =
    rw (any-known op.op_id db.ops, e, conflicts_of-met scope op db v) refl

progress_new :
    (scope : AuthenticatedDevice) (op : PushOperation) (db : Db) (p : Progress)
    → LogIsValid db
    → known op.op_id (ids_of db.ops) ≡ false
    → push_progress scope op db p ≡ record {
      accepted = p.accepted ++ op.op_id ∷ [];
      conflicts = p.conflicts ++ met scope op db.ops;
    }
unfolding push_progress
progress_new scope op db p v e =
    rw (any-known op.op_id db.ops, e, conflicts_of-met scope op db v) refl

push_db-LogIsValid :
    (scope : AuthenticatedDevice) (key : String) (now : ℕ) (op : PushOperation) (db : Db)
    → LogIsValid db
    → LogIsValid (push_db scope key now op db)
unfolding push_all_db
push_db-LogIsValid scope key now op db v = push-LogIsValid scope key now (op ∷ []) db v

push_all_progress-promised :
    (scope : AuthenticatedDevice) (key : String) (now : ℕ) (ops : List PushOperation) (db : Db)
    (p : Progress)
    → LogIsValid db
    → push_all_progress scope key now ops db p ≡ promised_progress scope key now ops db p
unfolding push_all_progress fresh conflicts_met
push_all_progress-promised scope key now [] db p v =
    rw (append-nil p.accepted, append-nil p.conflicts) refl
push_all_progress-promised scope key now (op ∷ ops) db p v =
    let after = push_db scope key now op db in
    let q = push_progress scope op db p in
    let ih =
      push_all_progress-promised scope key now ops after q
        (push_db-LogIsValid scope key now op db v) in
    elim (Bool-cases (known op.op_id (ids_of db.ops))) [
      | inl e ↦ rw e (
          ih
          ∙ ap (λ (d : Db). promised_progress scope key now ops d q)
              (push_db-known scope key now op db e)
          ∙ ap (promised_progress scope key now ops db) (progress_known scope op db p v e)
          ∙ ap
              (λ (c : List Conflict). record (promised_progress scope key now ops db p) {
                conflicts = c;
              })
              (append_assoc p.conflicts (met scope op db.ops) _))
      | inr e ↦
          let row = numbered_row scope key now (suc db.last_revision) op in
          let step = one_new scope key now op db e in
          let ids = ids_of-append db.ops (row ∷ []) in
          rw e (
            ih
            ∙ ap (λ (d : Db). promised_progress scope key now ops d q) step
            ∙ ap
                (promised_progress scope key now ops
                  (record db { ops = db.ops ++ row ∷ []; last_revision = suc db.last_revision }))
                (progress_new scope op db p v e)
            ∙ rw
                (
                  ids,
                  append_assoc p.accepted (op.op_id ∷ []) (
                      map (λ (o : PushOperation). o.op_id)
                        (fresh (ids_of db.ops ++ op.op_id ∷ []) ops)),
                  append_assoc p.conflicts (met scope op db.ops)
                      (conflicts_met scope key now (suc db.last_revision) (db.ops ++ row ∷ []) ops),
                )
                refl)
    ]

push_response-promised :
    (scope : AuthenticatedDevice) (req : PushRequest) (now : ℕ) (db : Db)
    → LogIsValid db
    → push_response scope req now db ≡ promised_answer scope req now db
push_response-promised scope req now db v =
    ap to_response
      (push_all_progress-promised scope req.idempotency_key now req.ops db no_progress v)
    ∙ ap (λ n. record (promised_answer scope req now db) { count = n })
        (length-map (λ (op : PushOperation). op.op_id) (new_operations req db))

committed-promised :
    (scope : AuthenticatedDevice) (req : PushRequest) (w : World) (now : ℕ)
    → LogIsValid w.db
    → committed w.host scope req now w.db ≡ promised_tables w.host scope req now w.db
unfolding remembered
committed-promised scope req w now v =
    let key = req.idempotency_key in
    ap
      (λ (resp : PushResponse).
        remembered w.host scope key now resp (push_all_db scope key now req.ops w.db))
      (push_response-promised scope req now w.db v)
    ∙ ap (remembered w.host scope key now (promised_answer scope req now w.db))
        (push_all_db-with_operations scope key now req.ops w.db)

unless-or_reject :
    (db : Db) (code : Option String) (refused cached : Option Reply) (done : Reply × Db)
    → or_reject code (or_replay refused cached done db) db
      ≡ unless db (refusal code) (unless db refused (unless db cached done))
unless-or_reject db (some code) refused cached done = refl
unless-or_reject db none (some reply) cached done = refl
unless-or_reject db none none (some reply) done = refl
unless-or_reject db none none none done = refl

-- On a database that does not fail, and where the log is valid, a push gives the answer and leaves
-- the tables that are promised. A request that is not valid, a reference that is not in order and a
-- key that is known change nothing. Otherwise the operations whose ids are new are put after the
-- log in their order, numbered from the next revision on, each with its revision; those that
-- delete leave the only tombstone of their entity; the answer names their ids, and for each
-- operation of a sender that has seen part of the log the rows of other devices on its entity
-- that the sender has not seen and that are no deletions; and it is put on record under its key,
-- if there is one.
pub push_scoped-promised :
    (scope : AuthenticatedDevice) (req : PushRequest) (w : World)
    → LogIsValid w.db
    → let (reply, after) = answer (push_scoped scope req) (quiet w) in
      (reply, after.db) ≡ promised w scope req
unfolding cached_reply
push_scoped-promised scope req w v =
    let now = stamp w.now in
    let done = λ (resp : PushResponse) (db : Db).
      or_reject (validate_sync_push w.host w.cfg.limits req)
        (or_replay (references_error w.host w.db.blob_refs scope req.ops)
          (cached_reply scope req.idempotency_key w.db) (json_ok (pushed resp), db) w.db)
        w.db in
    push_meets_spec scope req w
    ∙ ap (λ (resp : PushResponse). done resp (committed w.host scope req now w.db))
        (push_response-promised scope req now w.db v)
    ∙ ap (done (promised_answer scope req now w.db)) (committed-promised scope req w now v)
    ∙ unless-or_reject w.db (validate_sync_push w.host w.cfg.limits req)
        (references_error w.host w.db.blob_refs scope req.ops)
        (answered_before scope req.idempotency_key w.db) _
