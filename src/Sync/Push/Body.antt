-- ===== src/Sync/Push/Body.antt =====
-- The transaction of a push, statement by statement, and what it comes to.
use verstak_sync_server.Prelude.{
  ℕ, String, ◌≡◌, refl, subst, inl, inr, Bool-cases, Option, none, some, ◌==◌, find,
}
use verstak_sync_server.Schema.{Db, IdempotencyRow}
use verstak_sync_server.Server.World.{World}
use verstak_sync_server.Server.Reply.{Reply, PushResponse, raw, json_ok, internal_error}
use verstak_sync_server.Server.Action.{
  Exit, ok, halt, M, ◌>>=◌, ◌>>◌, pure, row, no_rows, broken, stop, to_row,
}
use verstak_sync_server.Server.Calm.{
  Ends, Runs, pure-Runs, statement-Runs, query-Runs, bind-Ends, bind-Ends_halt,
}
use verstak_sync_server.Device.Auth.{AuthenticatedDevice}
use verstak_sync_server.Blob.Reference.{validate_blob_references}
use verstak_sync_server.Blob.Owned.{references_error, exit_of, validate-Ends}
use verstak_sync_server.Sync.Contract.{PushRequest}
use verstak_sync_server.Sync.Push.Handler.{
  push_ops, is_cached, replay_cached, add_cached, remember, to_response, no_progress, push_body,
}
use verstak_sync_server.Sync.Push.Model.{push_all_db}
use verstak_sync_server.Sync.Push.Refines.{push_ops-Runs}
use verstak_sync_server.Sync.Push.Outcome.{
  cached_reply, new_cached, remembered, push_response, committed,
}

replay_row-Ends :
    (found : Option IdempotencyRow) (w : World)
    → Ends
        (elim (to_row found) [
          | row cached ↦ stop (json_ok (raw cached.response_json))
          | no_rows ↦ pure tt
          | broken ↦ stop internal_error
        ])
        w
        (exit_of (elim found [ none ↦ none | some r ↦ some (json_ok (raw r.response_json)) ]))
        w.db
replay_row-Ends none w = record { steps = w.step; run = refl }
replay_row-Ends (some r) w = record { steps = w.step; run = refl }

replay_cached-Ends :
    (scope : AuthenticatedDevice) (key : String) (w : World)
    → Ends (replay_cached scope key) w (exit_of (cached_reply scope key w.db)) w.db
unfolding replay_cached cached_reply
replay_cached-Ends scope key w = elim (Bool-cases (key == "")) [
  | inl e ↦ rw e (pure-Runs tt w)
  | inr e ↦ rw e (
      bind-Ends _ _ w _ _ _ _ (query-Runs (λ db. find (is_cached scope key) db.idempotency_keys) w)
        (λ n.
          replay_row-Ends (find (is_cached scope key) w.db.idempotency_keys)
            (record w { step = n })))
]

remember-Runs :
    (scope : AuthenticatedDevice) (key : String) (now : ℕ) (resp : PushResponse) (w : World)
    → Runs (remember scope key now resp) w tt (remembered w.host scope key now resp w.db)
unfolding remember remembered
remember-Runs scope key now resp w = elim (Bool-cases (key == "")) [
  | inl e ↦ rw e (pure-Runs tt w)
  | inr e ↦
      let s = statement-Runs (λ db. (tt, add_cached (new_cached w.host scope key now resp) db)) w in
      rw e (record { steps = s.steps; run = s.run })
]

-- The loop and the record of its answer.
abbrev rest_of_body : AuthenticatedDevice → PushRequest → ℕ → M PushResponse
rest_of_body scope req now = do
  p ← push_ops scope req.idempotency_key now req.ops no_progress
  remember scope req.idempotency_key now (to_response p)
  pure (to_response p)

rest-Runs :
    (scope : AuthenticatedDevice) (req : PushRequest) (now : ℕ) (w : World)
    → Runs
        (rest_of_body scope req now)
        w
        (push_response scope req now w.db)
        (committed w.host scope req now w.db)
rest-Runs scope req now w =
    bind-Ends _ _ w _ _ _ _ (push_ops-Runs scope req.idempotency_key now req.ops no_progress w)
      (λ n.
        bind-Ends _ _ _ _ _ _ _
          (remember-Runs scope req.idempotency_key now (push_response scope req now w.db)
            (record w { step = n; db = push_all_db scope req.idempotency_key now req.ops w.db }))
          (λ k. pure-Runs _ _))

abbrev after_checks : AuthenticatedDevice → PushRequest → ℕ → M PushResponse
after_checks scope req now = replay_cached scope req.idempotency_key >> rest_of_body scope req now

-- A reply that stops the body, or the response of the whole.
abbrev body_exit : Option Reply → Option Reply → PushResponse → Exit PushResponse
body_exit (some reply) cached resp = halt reply
body_exit none (some reply) resp = halt reply
body_exit none none resp = ok resp

abbrev pub body_db : Option Reply → Option Reply → Db → Db → Db
body_db none none done db = done
body_db refused cached done db = db

after_checks-Ends :
    (scope : AuthenticatedDevice) (req : PushRequest) (now : ℕ) (w : World) (c : Option Reply)
    → cached_reply scope req.idempotency_key w.db ≡ c
    → Ends
        (after_checks scope req now)
        w
        (body_exit none c (push_response scope req now w.db))
        (body_db none c (committed w.host scope req now w.db) w.db)
after_checks-Ends scope req now w (some reply) e =
    bind-Ends_halt (replay_cached scope req.idempotency_key) (λ _. rest_of_body scope req now) w
      reply _
      (subst (λ x. Ends (replay_cached scope req.idempotency_key) w (exit_of x) w.db) e
        (replay_cached-Ends scope req.idempotency_key w))
after_checks-Ends scope req now w none e =
    bind-Ends (replay_cached scope req.idempotency_key) (λ _. rest_of_body scope req now) w tt _ _ _
      (subst (λ x. Ends (replay_cached scope req.idempotency_key) w (exit_of x) w.db) e
        (replay_cached-Ends scope req.idempotency_key w))
      (λ n. rest-Runs scope req now (record w { step = n }))

pub push_body-Ends :
    (scope : AuthenticatedDevice) (req : PushRequest) (now : ℕ) (w : World)
    (refused cached : Option Reply)
    → references_error w.host w.db.blob_refs scope req.ops ≡ refused
    → cached_reply scope req.idempotency_key w.db ≡ cached
    → Ends
        (push_body scope req now)
        w
        (body_exit refused cached (push_response scope req now w.db))
        (body_db refused cached (committed w.host scope req now w.db) w.db)
unfolding push_body
push_body-Ends scope req now w (some reply) cached e c =
    bind-Ends_halt (validate_blob_references scope req.ops) (λ _. after_checks scope req now) w
      reply _
      (subst (λ x. Ends (validate_blob_references scope req.ops) w (exit_of x) w.db) e
        (validate-Ends scope req.ops w))
push_body-Ends scope req now w none cached e c =
    bind-Ends (validate_blob_references scope req.ops) (λ _. after_checks scope req now) w tt _ _ _
      (subst (λ x. Ends (validate_blob_references scope req.ops) w (exit_of x) w.db) e
        (validate-Ends scope req.ops w))
      (λ n. after_checks-Ends scope req now (record w { step = n }) cached c)
