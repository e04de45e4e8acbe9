-- ===== src/Sync/Push/Spec.antt =====
-- A whole push as one function of the request and the tables, and the proof that the handler's
-- statements come to it.
use verstak_sync_server.Prelude.{ℕ, String, ◌≡◌, refl, ap, Option, none, some}
use verstak_sync_server.Schema.{Db}
use verstak_sync_server.Server.World.{World, stamp}
use verstak_sync_server.Server.Reply.{Reply, PushResponse, pushed, json_ok}
use verstak_sync_server.Server.Action.{
  Exit, ok, halt, M, ◌>>=◌, ◌>>◌, pure, gets, transaction, answer, reply_of,
}
use verstak_sync_server.Server.Faults.{quiet}
use verstak_sync_server.Server.Calm.{
  Ends, pure-Runs, bind-Ends, bind-Ends_halt, transaction-Runs, transaction-Ends_halt,
}
use verstak_sync_server.Device.Auth.{AuthenticatedDevice}
use verstak_sync_server.Blob.Owned.{references_error}
use verstak_sync_server.Sync.Contract.{PushRequest, validate_sync_push}
use verstak_sync_server.Sync.Push.Handler.{push_body, push_scoped, reject}
use verstak_sync_server.Sync.Push.Outcome.{
  cached_reply, push_response, committed, or_replay, or_reject, push_spec,
}
use verstak_sync_server.Sync.Push.Body.{body_db, push_body-Ends}

abbrev committing : AuthenticatedDevice → PushRequest → ℕ → M Reply
committing scope req now = do
  resp ← transaction (push_body scope req now)
  pure (json_ok (pushed resp))

abbrev reply_exit : Option Reply → Option Reply → PushResponse → Exit Reply
reply_exit (some reply) cached resp = halt reply
reply_exit none (some reply) resp = halt reply
reply_exit none none resp = ok (json_ok (pushed resp))

committing-Ends :
    (scope : AuthenticatedDevice) (req : PushRequest) (now : ℕ) (w : World)
    (refused cached : Option Reply)
    → references_error w.host w.db.blob_refs scope req.ops ≡ refused
    → cached_reply scope req.idempotency_key w.db ≡ cached
    → Ends
        (committing scope req now)
        w
        (reply_exit refused cached (push_response scope req now w.db))
        (body_db refused cached (committed w.host scope req now w.db) w.db)
committing-Ends scope req now w (some reply) cached e c =
    bind-Ends_halt (transaction (push_body scope req now)) (λ resp. pure (json_ok (pushed resp))) w
      reply _
      (transaction-Ends_halt _ w reply _
        (λ n. push_body-Ends scope req now (record w { step = n }) (some reply) cached e c))
committing-Ends scope req now w none (some reply) e c =
    bind-Ends_halt (transaction (push_body scope req now)) (λ resp. pure (json_ok (pushed resp))) w
      reply _
      (transaction-Ends_halt _ w reply _
        (λ n. push_body-Ends scope req now (record w { step = n }) none (some reply) e c))
committing-Ends scope req now w none none e c =
    bind-Ends (transaction (push_body scope req now)) (λ resp. pure (json_ok (pushed resp))) w
      (push_response scope req now w.db) _ _ _
      (transaction-Runs _ w _ _
        (λ n. push_body-Ends scope req now (record w { step = n }) none none e c))
      (λ n. pure-Runs _ _)

abbrev outcome : Reply × World → Reply × Db
outcome (reply, w) = (reply, w.db)

committing-answer :
    (scope : AuthenticatedDevice) (req : PushRequest) (now : ℕ) (w : World)
    (refused cached : Option Reply)
    → references_error w.host w.db.blob_refs scope req.ops ≡ refused
    → cached_reply scope req.idempotency_key w.db ≡ cached
    → outcome (answer (committing scope req now) (quiet w))
      ≡ or_replay refused cached
          (json_ok (pushed (push_response scope req now w.db)), committed w.host scope req now w.db)
          w.db
committing-answer scope req now w (some reply) cached e c =
    ap (λ (x : Exit Reply × World). (reply_of x.0, x.1.db))
      (committing-Ends scope req now w (some reply) cached e c).run
committing-answer scope req now w none (some reply) e c =
    ap (λ (x : Exit Reply × World). (reply_of x.0, x.1.db))
      (committing-Ends scope req now w none (some reply) e c).run
committing-answer scope req now w none none e c =
    ap (λ (x : Exit Reply × World). (reply_of x.0, x.1.db))
      (committing-Ends scope req now w none none e c).run

rejected-answer :
    (scope : AuthenticatedDevice) (req : PushRequest) (w : World) (e : Option String)
    → validate_sync_push w.host w.cfg.limits req ≡ e
    → outcome (answer (reject e >> (gets (λ v. stamp v.now) >>= committing scope req)) (quiet w))
      ≡ or_reject e
          (or_replay
            (references_error w.host w.db.blob_refs scope req.ops)
            (cached_reply scope req.idempotency_key w.db)
            (
              json_ok (pushed (push_response scope req (stamp w.now) w.db)),
              committed w.host scope req (stamp w.now) w.db,
            )
            w.db)
          w.db
rejected-answer scope req w (some code) e = refl
rejected-answer scope req w none e = committing-answer scope req (stamp w.now) w _ _ refl refl

-- On a database that does not fail, a push gives the answer and leaves the tables that the
-- specification says, on every branch: a request that is not valid, a reference that is not, a
-- key that is known, and a push that commits.
pub push_meets_spec :
    (scope : AuthenticatedDevice) (req : PushRequest) (w : World)
    → let (reply, after) = answer (push_scoped scope req) (quiet w) in
      (reply, after.db) ≡ push_spec w scope req
unfolding push_scoped
push_meets_spec scope req w =
    rejected-answer scope req w (validate_sync_push w.host w.cfg.limits req) refl
