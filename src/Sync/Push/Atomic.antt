-- ===== src/Sync/Push/Atomic.antt =====
-- handleSyncPush when the database may refuse any of its statements.
use verstak_sync_server.Prelude.{
  ℕ, String, pos, ltb_ℤ, ◌≡◌, refl, sym, ap, ◌⊎◌, inl, inr, not, ◌||◌, ◌==◌, Option, none, some,
  List, [], ◌∷◌, arith,
}
use verstak_sync_server.Server.World.{World, FilePayload, BlobReference, stamp}
use verstak_sync_server.Server.Reply.{Reply, PushResponse, internal_error, json_ok, pushed}
use verstak_sync_server.Server.Action.{
  Exit, ◌>>=◌, ◌>>◌, continue, pure, gets, reply_of, ok, halt, row, no_rows, broken, transaction,
  answer,
}
use verstak_sync_server.Server.Rollback.{transaction-halt}
use verstak_sync_server.Server.Faults.{
  Robust, quiet, pure-Robust, stop-Robust, gets-Robust, statement-Robust, bind-Robust, query-Robust,
  transaction-Robust, if-Robust, stop_if-Robust,
}
use verstak_sync_server.Device.Auth.{AuthenticatedDevice}
use verstak_sync_server.Blob.Reference.{
  check_reference, check_blob, check_payload, validate_blob_references,
}
use verstak_sync_server.Sync.Contract.{PushOperation, PushRequest, validate_sync_push}
use verstak_sync_server.Sync.Push.Steps.{insert_revision}
use verstak_sync_server.Sync.Push.Handler.{
  Progress, sequence_op, push_op, push_ops, replay_cached, remember, push_body, push_scoped, reject,
  to_response, no_progress,
}

check_reference-Robust :
    (scope : AuthenticatedDevice) (ref : BlobReference) → Robust (check_reference scope ref)
unfolding check_reference
check_reference-Robust scope ref =
    bind-Robust _
      (λ host.
        bind-Robust _
          (λ _.
            query-Robust _ _
              (elim [
                | row stored ↦ stop_if-Robust _ _
                | no_rows ↦ stop-Robust _
                | broken ↦ stop-Robust _
              ])
              (λ w. refl))
          (stop_if-Robust _ _))
      (gets-Robust (λ w. w.host) (λ w. refl))

check_payload-Robust :
    (scope : AuthenticatedDevice) (p : Option FilePayload) → Robust (check_payload scope p)
check_payload-Robust scope none = stop-Robust _
check_payload-Robust scope (some p) = go p.data_base64 p.blob
  where
    on_blob : (b : Option BlobReference) → Robust (check_blob scope b)
    on_blob none = pure-Robust tt
    on_blob (some ref) = check_reference-Robust scope ref

    go :
        (inline : Option String) (b : Option BlobReference)
        → Robust (check_payload scope (some (record { data_base64 = inline; blob = b })))
    go none b = on_blob b
    go (some text) b = stop-Robust _

validate-Robust :
    (scope : AuthenticatedDevice) (ops : List PushOperation)
    → Robust (validate_blob_references scope ops)
unfolding validate_blob_references
validate-Robust scope [] = pure-Robust tt
validate-Robust scope (op ∷ ops) =
    bind-Robust _ (λ _. validate-Robust scope ops)
      (if-Robust (not (op.entity_type == "file") || (op.payload_json == "")) _ _ (pure-Robust tt) (
        bind-Robust _ (λ host. check_payload-Robust scope (host.file_payload op.payload_json))
          (gets-Robust (λ w. w.host) (λ w. refl))))

sequence_op-Robust :
    (scope : AuthenticatedDevice) (now : ℕ) (op : PushOperation) (p : Progress)
    → Robust (sequence_op scope now op p)
unfolding sequence_op
sequence_op-Robust scope now op p =
    bind-Robust _
      (λ seq.
        bind-Robust _
          (λ _.
            bind-Robust _ (λ _. pure-Robust _)
              (if-Robust (op.op_type == "delete") _ _ (statement-Robust _) (pure-Robust tt)))
          (statement-Robust _))
      (statement-Robust (insert_revision op.op_id scope.device_id))

push_op-Robust :
    (scope : AuthenticatedDevice) (key : String) (now : ℕ) (op : PushOperation) (p : Progress)
    → Robust (push_op scope key now op p)
unfolding push_op
push_op-Robust scope key now op p =
    bind-Robust _
      (λ found.
        bind-Robust _
          (λ inserted. if-Robust inserted _ _ (sequence_op-Robust scope now op _) (pure-Robust _))
          (statement-Robust _))
      (if-Robust (ltb_ℤ (pos 0) op.last_seen_server_seq) _ _ (statement-Robust _) (pure-Robust []))

push_ops-Robust :
    (scope : AuthenticatedDevice) (key : String) (now : ℕ) (ops : List PushOperation) (p : Progress)
    → Robust (push_ops scope key now ops p)
unfolding push_ops
push_ops-Robust scope key now [] p = pure-Robust p
push_ops-Robust scope key now (op ∷ ops) p =
    bind-Robust _ (λ q. push_ops-Robust scope key now ops q) (push_op-Robust scope key now op p)

replay_cached-Robust :
    (scope : AuthenticatedDevice) (key : String) → Robust (replay_cached scope key)
unfolding replay_cached
replay_cached-Robust scope key = if-Robust (key == "") _ _ (pure-Robust tt) (
    query-Robust _ _
      (elim [ row cached ↦ stop-Robust _ | no_rows ↦ pure-Robust tt | broken ↦ stop-Robust _ ])
      (λ w. refl))

remember-Robust :
    (scope : AuthenticatedDevice) (key : String) (now : ℕ) (resp : PushResponse)
    → Robust (remember scope key now resp)
unfolding remember
remember-Robust scope key now resp =
    if-Robust (key == "") _ _ (pure-Robust tt)
      (bind-Robust _ (λ host. statement-Robust _) (gets-Robust (λ w. w.host) (λ w. refl)))

push_body-Robust :
    (scope : AuthenticatedDevice) (req : PushRequest) (now : ℕ) → Robust (push_body scope req now)
unfolding push_body
push_body-Robust scope req now =
    bind-Robust _
      (λ _.
        bind-Robust _
          (λ _.
            bind-Robust _
              (λ p.
                bind-Robust _ (λ _. pure-Robust _)
                  (remember-Robust scope req.idempotency_key now (to_response p)))
              (push_ops-Robust scope req.idempotency_key now req.ops no_progress))
          (replay_cached-Robust scope req.idempotency_key))
      (validate-Robust scope req.ops)

reject-Robust : (e : Option String) → Robust (reject e)
reject-Robust none = pure-Robust tt
reject-Robust (some code) = stop-Robust _

pub push_scoped-Robust :
    (scope : AuthenticatedDevice) (req : PushRequest) → Robust (push_scoped scope req)
unfolding push_scoped
push_scoped-Robust scope req =
    bind-Robust _
      (λ host.
        bind-Robust _
          (λ limits.
            bind-Robust _
              (λ _.
                bind-Robust _
                  (λ now.
                    bind-Robust _ (λ resp. pure-Robust (json_ok (pushed resp)))
                      (transaction-Robust (push_body-Robust scope req now)))
                  (gets-Robust (λ w. stamp w.now) (λ w. refl)))
              (reject-Robust (validate_sync_push host limits req)))
          (gets-Robust (λ w. w.cfg.limits) (λ w. refl)))
      (gets-Robust (λ w. w.host) (λ w. refl))

-- What follows the validation of a push.
push_accepted-halt :
    (scope : AuthenticatedDevice) (req : PushRequest) (now : ℕ) (w : World)
    (r : Exit PushResponse × World) (reply : Reply)
    → ((e : Reply) → r.0 ≡ halt e → r.1.db ≡ w.db)
    → (continue (λ resp. pure (json_ok (pushed resp))) r).0 ≡ halt reply
    → (continue (λ resp. pure (json_ok (pushed resp))) r).1.db ≡ w.db
push_accepted-halt scope req now w (ok resp, w') reply h e = absurd (ground arith)
push_accepted-halt scope req now w (halt x, w') reply h e = h x refl

push_rejected_or_run-halt :
    (scope : AuthenticatedDevice) (req : PushRequest) (e : Option String) (w : World)
    (reply : Reply)
    → let m = (do
      reject e
      now ← gets (λ w. stamp w.now)
      resp ← transaction (push_body scope req now)
      pure (json_ok (pushed resp))) in
      (m w).0 ≡ halt reply → (m w).1.db ≡ w.db
push_rejected_or_run-halt scope req (some code) w reply h = refl
push_rejected_or_run-halt scope req none w reply h =
    push_accepted-halt scope req (stamp w.now) w (transaction (push_body scope req (stamp w.now)) w)
      reply (transaction-halt (push_body scope req (stamp w.now)) w) h

-- A push that does not commit leaves the tables alone.
pub push_scoped-halt :
    (scope : AuthenticatedDevice) (req : PushRequest) (w : World) (reply : Reply)
    → (push_scoped scope req w).0 ≡ halt reply
    → (push_scoped scope req w).1.db ≡ w.db
unfolding push_scoped
push_scoped-halt scope req w reply h =
    push_rejected_or_run-halt scope req (validate_sync_push w.host w.cfg.limits req) w reply h

-- Whichever statements the database refuses, a push is answered with status 500 and leaves the
-- tables as they were, or it gives the answer and the tables of the run in which none is refused.
pub push_all_or_nothing :
    (scope : AuthenticatedDevice) (req : PushRequest) (w : World)
    → let (reply, after) = answer (push_scoped scope req) w in
      let (calm_reply, calm_after) = answer (push_scoped scope req) (quiet w) in
      ((reply ≡ internal_error) × (after.db ≡ w.db))
      ⊎ ((reply ≡ calm_reply) × (after.db ≡ calm_after.db))
push_all_or_nothing scope req w = elim ((push_scoped-Robust scope req).same_run w) [
  | inl (fault, failed) ↦
      inl (ap reply_of failed, push_scoped-halt scope req w internal_error failed)
  | inr e ↦ inr (
    sym (ap (λ (r : Exit Reply × World). reply_of r.0) e),
    sym (ap (λ (r : Exit Reply × World). r.1.db) e),
  )
]
