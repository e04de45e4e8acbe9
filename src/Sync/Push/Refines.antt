-- ===== src/Sync/Push/Refines.antt =====
-- The statements of handleSyncPush do what `Sync/Push/Model` says.
use verstak_sync_server.Prelude.{
  ℕ, String, ◌≡◌, refl, ◌∙◌, subst, inl, inr, Bool-cases, List, [], ◌∷◌, ◌++◌, pos, ltb_ℤ, any,
  ◌==◌, if◌then◌else◌,
}
use verstak_sync_server.Schema.{Db}
use verstak_sync_server.Server.World.{World}
use verstak_sync_server.Server.Action.{pure}
use verstak_sync_server.Server.Calm.{
  Runs, pure-Runs, statement-Runs, if_exec-Runs, if_query-Runs, bind-Ends,
}
use verstak_sync_server.Device.Auth.{AuthenticatedDevice}
use verstak_sync_server.Sync.Contract.{PushOperation}
use verstak_sync_server.Sync.Push.Steps.{
  new_row, has_op_id, insert_or_ignore, insert_revision, conflicts_of,
}
use verstak_sync_server.Sync.Push.Handler.{Progress, sequence_op, push_op, push_ops}
use verstak_sync_server.Sync.Push.Model.{
  sequence_db, push_db, push_all_db, push_progress, push_all_progress,
}

sequence_op-Runs :
    (scope : AuthenticatedDevice) (now : ℕ) (op : PushOperation) (p : Progress) (w : World)
    → Runs
        (sequence_op scope now op p)
        w
        (record p { accepted = p.accepted ++ op.op_id ∷ [] })
        (sequence_db scope now op w.db)
unfolding sequence_op sequence_db
sequence_op-Runs scope now op p w =
    bind-Ends _ _ w _ _ _ _ (statement-Runs (insert_revision op.op_id scope.device_id) w) (λ n.
      bind-Ends _ _ _ _ _ _ _ (statement-Runs _ _) (λ k.
        bind-Ends _ _ _ _ _ _ _ (if_exec-Runs (op.op_type == "delete") _ _) (λ l. pure-Runs _ _)))

inserted-Runs :
    (scope : AuthenticatedDevice) (key : String) (now : ℕ) (op : PushOperation) (q : Progress)
    (db : Db) (w : World)
    → w.db ≡ (insert_or_ignore (new_row scope key now op) db).1
    → Runs
        (if (insert_or_ignore (new_row scope key now op) db).0
          then sequence_op scope now op q
          else pure q)
        w
        (record q {
          accepted =
              if any (has_op_id op.op_id) db.ops then q.accepted else q.accepted ++ op.op_id ∷ [];
        })
        (push_db scope key now op db)
unfolding push_db insert_or_ignore
inserted-Runs scope key now op q db w h = elim (Bool-cases (any (has_op_id op.op_id) db.ops)) [
  | inl e ↦
      let same : w.db ≡ db = h ∙ rw e in
      rw e (subst (λ d. Runs (pure q) w q d) same (pure-Runs q w))
  | inr e ↦
      let added : w.db ≡ record db { ops = db.ops ++ new_row scope key now op ∷ [] } = h ∙ rw e in
      rw e (
        subst
          (λ d.
            Runs (sequence_op scope now op q) w
              (record q { accepted = q.accepted ++ op.op_id ∷ [] }) (sequence_db scope now op d))
          added (sequence_op-Runs scope now op q w))
]

push_op-Runs :
    (scope : AuthenticatedDevice) (key : String) (now : ℕ) (op : PushOperation) (p : Progress)
    (w : World)
    → Runs
        (push_op scope key now op p)
        w
        (push_progress scope op w.db p)
        (push_db scope key now op w.db)
unfolding push_op push_progress
push_op-Runs scope key now op p w =
    bind-Ends _ _ w _ _ _ _
      (if_query-Runs (ltb_ℤ (pos 0) op.last_seen_server_seq) (conflicts_of scope op) [] w)
      (λ n.
        bind-Ends _ _ _ _ _ _ _
          (statement-Runs (insert_or_ignore (new_row scope key now op)) (record w { step = n }))
          (λ k. inserted-Runs scope key now op _ w.db _ refl))

-- The loop, on tables that never fail.
pub push_ops-Runs :
    (scope : AuthenticatedDevice) (key : String) (now : ℕ) (ops : List PushOperation) (p : Progress)
    (w : World)
    → Runs
        (push_ops scope key now ops p)
        w
        (push_all_progress scope key now ops w.db p)
        (push_all_db scope key now ops w.db)
unfolding push_ops push_all_progress push_all_db
push_ops-Runs scope key now [] p w = pure-Runs p w
push_ops-Runs scope key now (op ∷ ops) p w =
    bind-Ends _ _ w _ _ _ _ (push_op-Runs scope key now op p w)
      (λ n. push_ops-Runs scope key now ops _ _)
