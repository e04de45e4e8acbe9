-- ===== src/Sync/Delivery.antt =====
-- What a push makes other devices receive.
use verstak_sync_server.Prelude.{
  ℕ, suc, ◌≤◌, ◌≡◌, refl, sym, ap, ◌∙◌, subst, length, String, true, false, ◌&&◌, inl, inr,
  Bool-cases, List, [], ◌∷◌, ◌++◌, map, arith, ◌==◌, eq_refl, pos, select, select-All,
  select-append, select-none, All,
}
use mathlib.Core.List.{append-nil, append_assoc}
use verstak_sync_server.Schema.{Db, OpRow}
use verstak_sync_server.Server.World.{Host}
use verstak_sync_server.Device.Auth.{AuthenticatedDevice}
use verstak_sync_server.Sync.Contract.{PushOperation, PushRequest}
use verstak_sync_server.Sync.Push.Steps.{sequence_of, is_conflict, conflicts_of, order_by_sequence}
use verstak_sync_server.Sync.Push.Handler.{Progress, push_scoped, no_progress}
use verstak_sync_server.Sync.Push.Model.{
  push_db, push_db-known, push_db-fresh, push_all_db, push_all_db-log, numbered, fresh, ids_of,
  known, any-known, push_progress, push_all_progress, ids_of-append,
}
use verstak_sync_server.Sync.Push.Outcome.{remembered, committed, push_response}
use verstak_sync_server.Sync.Push.Cases.{push_cases, not_pushed, response_of}
use verstak_sync_server.Server.World.{World, stamp}
use verstak_sync_server.Server.Reply.{PushResponse, pushed, json_ok}
use verstak_sync_server.Server.Action.{answer}
use verstak_sync_server.Sync.Pull.{pending_rows, is_pending}
use verstak_sync_server.Sync.Log.{LogIsValid, push-LogIsValid, Sequenced}
use verstak_sync_server.Sync.Paging.{pending-eq-select}

-- The rows that a push adds.
abbrev pub added_rows : AuthenticatedDevice → PushRequest → ℕ → Db → List OpRow
added_rows scope req now db =
    numbered scope req.idempotency_key now (suc db.last_revision) (fresh (ids_of db.ops) req.ops)

remembered-log :
    (host : Host) (scope : AuthenticatedDevice) (req : PushRequest) (now : ℕ) (db : Db)
    → ((committed host scope req now db).ops
        ≡ (push_all_db scope req.idempotency_key now req.ops db).ops)
      × ((committed host scope req now db).last_revision
          ≡ (push_all_db scope req.idempotency_key now req.ops db).last_revision)
unfolding remembered
remembered-log host scope req now db = elim (Bool-cases (req.idempotency_key == "")) [
  | inl e ↦ rw e (refl, refl)
  | inr e ↦ rw e (refl, refl)
]

-- A committed push keeps the operation log valid: every row has a sequence, the sequences grow
-- and stay at most the revision counter, and no operation id stands twice.
committed-LogIsValid :
    (host : Host) (scope : AuthenticatedDevice) (req : PushRequest) (now : ℕ) (db : Db)
    → LogIsValid db
    → LogIsValid (committed host scope req now db)
committed-LogIsValid host scope req now db v =
    let same = remembered-log host scope req now db in
    let w = push-LogIsValid scope req.idempotency_key now req.ops db v in
    record { ordered = rw (same.0, same.1) w.ordered; distinct = rw same.0 w.distinct }

committed-ops :
    (host : Host) (scope : AuthenticatedDevice) (req : PushRequest) (now : ℕ) (db : Db)
    → (committed host scope req now db).ops ≡ db.ops ++ added_rows scope req now db
committed-ops host scope req now db =
    (remembered-log host scope req now db).0
    ∙ (push_all_db-log scope req.idempotency_key now req.ops db).0

-- Rows of one scope, seen by a device of another.
foreign :
    (scope other : AuthenticatedDevice) (key : String) (now seq since : ℕ)
    (ops : List PushOperation)
    → ((other.user_id == scope.user_id) && (other.vault_id == scope.vault_id)) ≡ false
    → All (λ r. is_pending scope (pos since) r ≡ false) (numbered other key now seq ops)
unfolding numbered
foreign scope other key now seq since [] h = tt
foreign scope other key now seq since (op ∷ ops) h =
    (rw h, foreign scope other key now (suc seq) since ops h)

own :
    (scope mate : AuthenticatedDevice) (key : String) (now seq since : ℕ) (ops : List PushOperation)
    → mate.user_id ≡ scope.user_id
    → mate.vault_id ≡ scope.vault_id
    → since ≤ seq
    → All (λ r. is_pending mate (pos since) r ≡ true) (numbered scope key now (suc seq) ops)
unfolding numbered
own scope mate key now seq since [] u v h = tt
own scope mate key now seq since (op ∷ ops) u v h = (
  rw (u, v, eq_refl scope.user_id, eq_refl scope.vault_id) (ground arith),
  own scope mate key now (suc seq) since ops u v (omega arith),
)

-- Where the log is valid, a committed push changes nothing that a device of another user or vault
-- can pull.
committed_isolated :
    (host : Host) (scope other : AuthenticatedDevice) (req : PushRequest) (now since : ℕ) (db : Db)
    → LogIsValid db
    → ((scope.user_id == other.user_id) && (scope.vault_id == other.vault_id)) ≡ false
    → pending_rows other (pos since) (committed host scope req now db)
      ≡ pending_rows other (pos since) db
committed_isolated host scope other req now since db v h =
    let v' = committed-LogIsValid host scope req now db v in
    pending-eq-select other (pos since) _ v'
    ∙ ap (select (is_pending other (pos since))) (committed-ops host scope req now db)
    ∙ select-append (is_pending other (pos since)) db.ops (added_rows scope req now db)
    ∙ ap (λ (l : List OpRow). select (is_pending other (pos since)) db.ops ++ l)
        (select-none (is_pending other (pos since)) _ (foreign other scope _ now _ since _ h))
    ∙ append-nil _
    ∙ sym (pending-eq-select other (pos since) db v)

-- Where the log is valid, a device of the same user and vault, with a cursor at most the revision counter, then pulls what
-- it had still to pull and after it the new operations of the push, in their order and numbered
-- from the next revision on.
committed_delivered :
    (host : Host) (scope mate : AuthenticatedDevice) (req : PushRequest) (now since : ℕ) (db : Db)
    → LogIsValid db
    → mate.user_id ≡ scope.user_id
    → mate.vault_id ≡ scope.vault_id
    → since ≤ db.last_revision
    → pending_rows mate (pos since) (committed host scope req now db)
      ≡ pending_rows mate (pos since) db ++ added_rows scope req now db
committed_delivered host scope mate req now since db v eu ev h =
    let v' = committed-LogIsValid host scope req now db v in
    pending-eq-select mate (pos since) _ v'
    ∙ ap (select (is_pending mate (pos since))) (committed-ops host scope req now db)
    ∙ select-append (is_pending mate (pos since)) db.ops (added_rows scope req now db)
    ∙ ap (λ (l : List OpRow). select (is_pending mate (pos since)) db.ops ++ l)
        (select-All (is_pending mate (pos since)) _ (own scope mate _ now _ since _ eu ev h))
    ∙ ap (λ (l : List OpRow). l ++ added_rows scope req now db)
        (sym (pending-eq-select mate (pos since) db v))

sequence-le-hi : (lo : ℕ) (rows : List OpRow) (hi : ℕ) → Sequenced lo rows hi → lo ≤ hi
sequence-le-hi lo [] hi s = s
sequence-le-hi lo (r ∷ rs) hi s = omega (arith, sequence-le-hi (sequence_of r) rs hi s.2)

abbrev pub new_ids : List String → List PushOperation → List String
new_ids ids ops = map (λ o. o.op_id) (fresh ids ops)

accepted_known :
    (scope : AuthenticatedDevice) (op : PushOperation) (db : Db) (p : Progress)
    → known op.op_id (ids_of db.ops) ≡ true
    → (push_progress scope op db p).accepted ≡ p.accepted
unfolding push_progress
accepted_known scope op db p e = rw (any-known op.op_id db.ops, e)

accepted_fresh :
    (scope : AuthenticatedDevice) (op : PushOperation) (db : Db) (p : Progress)
    → known op.op_id (ids_of db.ops) ≡ false
    → (push_progress scope op db p).accepted ≡ p.accepted ++ op.op_id ∷ []
unfolding push_progress
accepted_fresh scope op db p e = rw (any-known op.op_id db.ops, e)

-- The ids that the loop answers with are those accepted before and, after them, those of the
-- operations whose ids are not in the log, a repeated id once.
push_all_progress-accepted :
    (scope : AuthenticatedDevice) (key : String) (now : ℕ) (ops : List PushOperation) (db : Db)
    (p : Progress)
    → (push_all_progress scope key now ops db p).accepted
      ≡ p.accepted ++ new_ids (ids_of db.ops) ops
unfolding push_all_progress fresh
push_all_progress-accepted scope key now [] db p = sym (append-nil p.accepted)
push_all_progress-accepted scope key now (op ∷ ops) db p =
    let d : Db = push_db scope key now op db in
    let q : Progress = push_progress scope op db p in
    let ih = push_all_progress-accepted scope key now ops d q in
    elim (Bool-cases (known op.op_id (ids_of db.ops))) [
      | inl e ↦ rw e (
          ih
          ∙ ap (λ (a : List String). a ++ new_ids (ids_of d.ops) ops)
              (accepted_known scope op db p e)
          ∙ ap (λ (d' : Db). p.accepted ++ new_ids (ids_of d'.ops) ops)
              (push_db-known scope key now op db e))
      | inr e ↦ rw e (
          ih
          ∙ ap (λ (a : List String). a ++ new_ids (ids_of d.ops) ops)
              (accepted_fresh scope op db p e)
          ∙ ap (λ (ids : List String). (p.accepted ++ op.op_id ∷ []) ++ new_ids ids ops)
              (ap ids_of (push_db-fresh scope key now op db e).0 ∙ ids_of-append db.ops _)
          ∙ append_assoc p.accepted (op.op_id ∷ []) _)
    ]

none_later :
    (scope : AuthenticatedDevice) (op : PushOperation) (seen lo : ℕ) (rows : List OpRow) (hi : ℕ)
    → Sequenced lo rows hi
    → op.last_seen_server_seq ≡ pos seen
    → hi ≤ seen
    → All (λ r. is_conflict scope op r ≡ false) rows
unfolding is_conflict
none_later scope op seen lo [] hi s e h = tt
none_later scope op seen lo (r ∷ rs) hi s e h =
    let top : sequence_of r ≤ hi = sequence-le-hi (sequence_of r) rs hi s.2 in
    (rw e (ground arith), none_later scope op seen (sequence_of r) rs hi s.2 e h)

-- Where the log is valid, an operation whose sender has seen the whole log meets no conflict.
pub up_to_date-conflicts :
    (scope : AuthenticatedDevice) (op : PushOperation) (db : Db) (seen : ℕ)
    → LogIsValid db
    → op.last_seen_server_seq ≡ pos seen
    → db.last_revision ≤ seen
    → conflicts_of scope op db ≡ []
unfolding conflicts_of is_conflict order_by_sequence
up_to_date-conflicts scope op db seen v e h =
    rw
      (select-none (is_conflict scope op) db.ops
        (none_later scope op seen 0 db.ops db.last_revision v.ordered e h))
      refl

-- A push of any kind, on a database that may fail: where the log is valid it stays valid. Every row
-- has a sequence, the sequences grow and stay at most the revision counter, and no operation id
-- stands twice.
pub push_scoped-LogIsValid :
    (scope : AuthenticatedDevice) (req : PushRequest) (w : World)
    → LogIsValid w.db
    → LogIsValid (answer (push_scoped scope req) w).1.db
push_scoped-LogIsValid scope req w v = elim (push_cases scope req w) [
  | inl (same, _) ↦ subst LogIsValid (sym same) v
  | inr (done, _) ↦
      subst LogIsValid (sym done) (committed-LogIsValid w.host scope req (stamp w.now) w.db v)
]

-- Where the log is valid, a push changes nothing that a device of another user or vault can pull,
-- whatever it is answered with and whichever statements fail.
pub push_isolated :
    (scope other : AuthenticatedDevice) (req : PushRequest) (w : World) (since : ℕ)
    → LogIsValid w.db
    → ((scope.user_id == other.user_id) && (scope.vault_id == other.vault_id)) ≡ false
    → pending_rows other (pos since) (answer (push_scoped scope req) w).1.db
      ≡ pending_rows other (pos since) w.db
push_isolated scope other req w since v h = elim (push_cases scope req w) [
  | inl (same, _) ↦ ap (pending_rows other (pos since)) same
  | inr (done, _) ↦
      ap (pending_rows other (pos since)) done
      ∙ committed_isolated w.host scope other req (stamp w.now) since w.db v h
]

-- Where the log is valid and a push is answered with a response of its own, whichever statements
-- may fail, a device of the same user and vault, with a cursor at most the revision counter, then
-- pulls what it had still to pull and after it the new operations of the push, in their order and
-- numbered from the next revision on.
pub push_delivered :
    (scope mate : AuthenticatedDevice) (req : PushRequest) (w : World) (since : ℕ)
    (resp : PushResponse)
    → LogIsValid w.db
    → mate.user_id ≡ scope.user_id
    → mate.vault_id ≡ scope.vault_id
    → since ≤ w.db.last_revision
    → (answer (push_scoped scope req) w).0 ≡ json_ok (pushed resp)
    → pending_rows mate (pos since) (answer (push_scoped scope req) w).1.db
      ≡ pending_rows mate (pos since) w.db ++ added_rows scope req (stamp w.now) w.db
push_delivered scope mate req w since resp v user vault h reply = elim (push_cases scope req w) [
  | inl (_, other) ↦ absurd (not_pushed reply other)
  | inr (done, _) ↦
      ap (pending_rows mate (pos since)) done
      ∙ committed_delivered w.host scope mate req (stamp w.now) since w.db v user vault h
]

-- The ids that a push is answered with, where it is answered with a response of its own, are those
-- of the operations whose ids are not in the log, in their order and a repeated id once, and their
-- number is the response's count.
pub push_accepted :
    (scope : AuthenticatedDevice) (req : PushRequest) (w : World) (resp : PushResponse)
    → (answer (push_scoped scope req) w).0 ≡ json_ok (pushed resp)
    → (resp.accepted ≡ new_ids (ids_of w.db.ops) req.ops)
      × (resp.count ≡ length (new_ids (ids_of w.db.ops) req.ops))
push_accepted scope req w resp reply = elim (push_cases scope req w) [
  | inl (_, other) ↦ absurd (not_pushed reply other)
  | inr (_, answered) ↦
      let made = push_response scope req (stamp w.now) w.db in
      let same : resp ≡ made = ap (response_of resp) (sym reply ∙ answered) in
      let ids =
        push_all_progress-accepted scope req.idempotency_key (stamp w.now) req.ops w.db
          no_progress in
      (
        ap (λ (a : PushResponse). a.accepted) same ∙ ids,
        ap (λ (a : PushResponse). a.count) same ∙ ap (λ (l : List String). length l) ids,
      )
]
