-- ===== src/Sync/Push/Replay.antt =====
-- Sending a push again under the same idempotency key.
use verstak_sync_server.Prelude.{
  ℕ, String, ◌≡◌, refl, ap, ◌∙◌, false, inl, inr, Bool-cases, none, some, List, [], ◌∷◌, ◌==◌,
  eq_refl, find, any, find-append_none,
}
use verstak_sync_server.Schema.{Db, BlobRefRow}
use verstak_sync_server.Server.World.{World, Host, stamp}
use verstak_sync_server.Server.Reply.{Reply, raw, pushed, json_ok}
use verstak_sync_server.Server.Action.{answer}
use verstak_sync_server.Server.Faults.{quiet}
use verstak_sync_server.Device.Auth.{AuthenticatedDevice}
use verstak_sync_server.Blob.Owned.{references_error}
use verstak_sync_server.Sync.Contract.{PushOperation, PushRequest, validate_sync_push}
use verstak_sync_server.Sync.Push.Steps.{
  has_op_id, insert_or_ignore, insert_revision, set_sequence, replace_tombstone,
}
use verstak_sync_server.Sync.Push.Handler.{is_cached, push_scoped}
use verstak_sync_server.Sync.Push.Model.{sequence_db, push_db, push_all_db}
use verstak_sync_server.Sync.Push.Spec.{push_meets_spec}
use verstak_sync_server.Sync.Push.Outcome.{
  cached_reply, remembered, new_cached, push_response, committed, push_spec,
}

-- The tables that the loop leaves alone.
abbrev pub SameElsewhere : Db → Db → Type 0
SameElsewhere db db' =
    (db'.blob_refs ≡ db.blob_refs)
    × (db'.idempotency_keys ≡ db.idempotency_keys)
    × (db'.users ≡ db.users)
    × (db'.devices ≡ db.devices)

push_db-elsewhere :
    (scope : AuthenticatedDevice) (key : String) (now : ℕ) (op : PushOperation) (db : Db)
    → SameElsewhere db (push_db scope key now op db)
unfolding push_db sequence_db insert_or_ignore insert_revision set_sequence replace_tombstone
push_db-elsewhere scope key now op db = elim (Bool-cases (any (has_op_id op.op_id) db.ops)) [
  | inl e ↦ rw e (refl, refl, refl, refl)
  | inr e ↦ elim (Bool-cases (op.op_type == "delete")) [
    | inl d ↦ rw (e, d) (refl, refl, refl, refl)
    | inr d ↦ rw (e, d) (refl, refl, refl, refl)
  ]
]

pub push_all_db-elsewhere :
    (scope : AuthenticatedDevice) (key : String) (now : ℕ) (ops : List PushOperation) (db : Db)
    → SameElsewhere db (push_all_db scope key now ops db)
unfolding push_all_db
push_all_db-elsewhere scope key now [] db = (refl, refl, refl, refl)
push_all_db-elsewhere scope key now (op ∷ ops) db =
    let first = push_db-elsewhere scope key now op db in
    let rest = push_all_db-elsewhere scope key now ops (push_db scope key now op db) in
    (rest.0 ∙ first.0, rest.1 ∙ first.1, rest.2 ∙ first.2, rest.3 ∙ first.3)

-- The request is valid, its references are, and its key is not empty and not known.
pub record IsNew (w : World) (scope : AuthenticatedDevice) (req : PushRequest) : Type 0 where
  pub valid : validate_sync_push w.host w.cfg.limits req ≡ none
  pub owned : references_error w.host w.db.blob_refs scope req.ops ≡ none
  pub unknown : find (is_cached scope req.idempotency_key) w.db.idempotency_keys ≡ none
  pub keyed : (req.idempotency_key == "") ≡ false

cached-committed :
    (host : Host) (scope : AuthenticatedDevice) (req : PushRequest) (now : ℕ) (db : Db)
    → find (is_cached scope req.idempotency_key) db.idempotency_keys ≡ none
    → (req.idempotency_key == "") ≡ false
    → cached_reply scope req.idempotency_key (committed host scope req now db)
      ≡ some (json_ok (raw (host.marshal_push (push_response scope req now db))))
unfolding cached_reply remembered
cached-committed host scope req now db h k =
    let same = (push_all_db-elsewhere scope req.idempotency_key now req.ops db).1 in
    let row = new_cached host scope req.idempotency_key now (push_response scope req now db) in
    rw (
      k,
      same,
      find-append_none (is_cached scope req.idempotency_key) db.idempotency_keys (row ∷ []) h,
      eq_refl scope.user_id,
      eq_refl scope.vault_id,
      eq_refl req.idempotency_key,
    )

references-committed :
    (host : Host) (scope : AuthenticatedDevice) (req : PushRequest) (now : ℕ) (db : Db)
    → (committed host scope req now db).blob_refs ≡ db.blob_refs
unfolding remembered
references-committed host scope req now db =
    let same = (push_all_db-elsewhere scope req.idempotency_key now req.ops db).0 in
    elim (Bool-cases (req.idempotency_key == "")) [ inl e ↦ rw e same | inr e ↦ rw e same ]

spec_known :
    (w : World) (scope : AuthenticatedDevice) (req : PushRequest) (reply : Reply)
    → validate_sync_push w.host w.cfg.limits req ≡ none
    → references_error w.host w.db.blob_refs scope req.ops ≡ none
    → cached_reply scope req.idempotency_key w.db ≡ some reply
    → push_spec w scope req ≡ (reply, w.db)
spec_known w scope req reply h k c = rw (h, k, c)

spec_again :
    (w : World) (scope : AuthenticatedDevice) (req : PushRequest) (later n : ℕ) (db' : Db)
    → IsNew w scope req
    → db' ≡ committed w.host scope req (stamp w.now) w.db
    → push_spec (record w { db = db'; now = later; step = n }) scope req
      ≡ (json_ok (raw (w.host.marshal_push (push_response scope req (stamp w.now) w.db))), db')
spec_again w scope req later n db' v e =
    let refs : db'.blob_refs ≡ w.db.blob_refs =
      ap (λ (d : Db). d.blob_refs) e ∙ references-committed w.host scope req (stamp w.now) w.db in
    spec_known (record w { db = db'; now = later; step = n }) scope req _ v.valid
      (ap (λ (r : List BlobRefRow). references_error w.host r scope req.ops) refs ∙ v.owned)
      (ap (cached_reply scope req.idempotency_key) e
        ∙ cached-committed w.host scope req (stamp w.now) w.db v.unknown v.keyed)

spec_first :
    (w : World) (scope : AuthenticatedDevice) (req : PushRequest)
    → IsNew w scope req
    → push_spec w scope req ≡ (
      json_ok (pushed (push_response scope req (stamp w.now) w.db)),
      committed w.host scope req (stamp w.now) w.db,
    )
unfolding cached_reply
spec_first w scope req v = rw (v.valid, v.owned, v.keyed, v.unknown)

-- On a database that does not fail, a valid push with a key that is not empty and not on record,
-- whose references are in order, commits; sending it again at any later time is answered with the text of
-- the first answer, and changes no table.
pub push_twice :
    (w : World) (scope : AuthenticatedDevice) (req : PushRequest) (later n : ℕ)
    → IsNew w scope req
    → let resp = push_response scope req (stamp w.now) w.db in
      let (reply, after) = answer (push_scoped scope req) (quiet w) in
      let (again, after_again) =
        answer
          (push_scoped scope req)
          (quiet (record w { db = after.db; now = later; step = n })) in
      (reply ≡ json_ok (pushed resp))
      × (again ≡ json_ok (raw (w.host.marshal_push resp)))
      × (after_again.db ≡ after.db)
push_twice w scope req later n v =
    let first = push_meets_spec scope req w ∙ spec_first w scope req v in
    let after : Db = (answer (push_scoped scope req) (quiet w)).1.db in
    let second =
      push_meets_spec scope req (record w { db = after; now = later; step = n })
      ∙ spec_again w scope req later n after v (ap (λ (x : Reply × Db). x.1) first) in
    (
      ap (λ (x : Reply × Db). x.0) first,
      ap (λ (x : Reply × Db). x.0) second,
      ap (λ (x : Reply × Db). x.1) second,
    )
