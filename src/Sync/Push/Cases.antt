-- ===== src/Sync/Push/Cases.antt =====
-- What a push can come to, on a database that may fail: nothing has changed, or it has committed and
-- says so.
use verstak_sync_server.Prelude.{
  ◌≡◌, ◌⊎◌, inl, inr, refl, sym, ap, ◌∙◌, subst, String, Bool, true, false, not, ◌||◌, Option, none,
  some, List, [], ◌∷◌, ℤ, is_negative, ◌==◌, find, Bool-cases, Option-cases, arith,
}
use verstak_sync_server.Schema.{Db, BlobRefRow}
use verstak_sync_server.Server.World.{World, Host, FilePayload, BlobReference, stamp}
use verstak_sync_server.Server.Reply.{Reply, Body, PushResponse, pushed, json_ok}
use verstak_sync_server.Server.Action.{answer}
use verstak_sync_server.Device.Auth.{AuthenticatedDevice}
use verstak_sync_server.Blob.Reference.{is_reference, valid_sha256, same_size}
use verstak_sync_server.Blob.Owned.{
  references_error, reference_error, payload_reference_error, inline_or_blob_error, blob_error,
  stored_error, first_reply,
}
use verstak_sync_server.Sync.Contract.{PushOperation, PushRequest, validate_sync_push}
use verstak_sync_server.Sync.Push.Handler.{push_scoped, is_cached}
use verstak_sync_server.Sync.Push.Outcome.{
  cached_reply, push_response, committed, or_replay, or_reject,
}
use verstak_sync_server.Sync.Push.Spec.{push_meets_spec}
use verstak_sync_server.Sync.Push.Atomic.{push_all_or_nothing}

abbrev pub is_push : Body → Bool
is_push b = elim b [ pushed resp ↦ true | _ ↦ false ]

-- The response of a push, or another one where there is none.
abbrev pub response_of : PushResponse → Reply → PushResponse
response_of other reply = elim reply.body [ pushed resp ↦ resp | _ ↦ other ]

pub not_pushed {ℓ} :
    {X : Type ℓ} {reply : Reply} {resp : PushResponse}
    → reply ≡ json_ok (pushed resp)
    → is_push reply.body ≡ false
    → X
not_pushed h k =
    let clash : true ≡ false = sym (ap (λ (r : Reply). is_push r.body) h) ∙ k in
    absurd (ground arith)

-- No reply, or one that is not the response of a push.
abbrev Other : Option Reply → Type 0
Other o = elim o [ none ↦ Unit | some reply ↦ is_push reply.body ≡ false ]

stored-Other : (o : Option BlobRefRow) (size : ℤ) → Other (stored_error o size)
stored-Other none size = refl
stored-Other (some r) size = elim (Bool-cases (not (same_size r.size size))) [
  | inl e ↦ rw e refl
  | inr e ↦ rw e tt
]

blob-Other :
    (host : Host) (refs : List BlobRefRow) (scope : AuthenticatedDevice) (ref : BlobReference)
    → Other (blob_error host refs scope ref)
blob-Other host refs scope ref =
    elim (Bool-cases (not (valid_sha256 host ref.sha256) || is_negative ref.size)) [
      | inl e ↦ rw e refl
      | inr e ↦ rw e (stored-Other (find (is_reference scope ref.sha256) refs) ref.size)
    ]

payload-Other :
    (host : Host) (refs : List BlobRefRow) (scope : AuthenticatedDevice) (text : Option String)
    (blob : Option BlobReference)
    → Other (inline_or_blob_error host refs scope text blob)
payload-Other host refs scope (some inlined) blob = refl
payload-Other host refs scope none none = tt
payload-Other host refs scope none (some ref) = blob-Other host refs scope ref

file-Other :
    (host : Host) (refs : List BlobRefRow) (scope : AuthenticatedDevice) (p : Option FilePayload)
    → Other (payload_reference_error host refs scope p)
file-Other host refs scope none = refl
file-Other host refs scope (some p) = payload-Other host refs scope p.data_base64 p.blob

reference-Other :
    (host : Host) (refs : List BlobRefRow) (scope : AuthenticatedDevice) (op : PushOperation)
    → Other (reference_error host refs scope op)
reference-Other host refs scope op =
    elim (Bool-cases (not (op.entity_type == "file") || (op.payload_json == ""))) [
      | inl e ↦ rw e tt
      | inr e ↦ rw e (file-Other host refs scope (host.file_payload op.payload_json))
    ]

first-Other : (o next : Option Reply) → Other o → Other next → Other (first_reply o next)
first-Other none next h k = k
first-Other (some reply) next h k = h

references-Other :
    (host : Host) (refs : List BlobRefRow) (scope : AuthenticatedDevice) (ops : List PushOperation)
    → Other (references_error host refs scope ops)
unfolding references_error
references-Other host refs scope [] = tt
references-Other host refs scope (op ∷ ops) =
    first-Other (reference_error host refs scope op) (references_error host refs scope ops)
      (reference-Other host refs scope op) (references-Other host refs scope ops)

cached-Other :
    (scope : AuthenticatedDevice) (key : String) (db : Db) → Other (cached_reply scope key db)
unfolding cached_reply
cached-Other scope key db = elim (Bool-cases (key == "")) [
  | inl e ↦ rw e tt
  | inr e ↦ elim (Option-cases (find (is_cached scope key) db.idempotency_keys)) [
    | inl f ↦ rw (e, f) tt
    | inr (r, f) ↦ rw (e, f) refl
  ]
]

-- Nothing has changed and the answer is not a response, or these are the response and the tables.
abbrev pub Comes : PushResponse → Db → Db → Reply × Db → Type 0
Comes resp done before (reply, after) =
    ((after ≡ before) × (is_push reply.body ≡ false))
    ⊎ ((after ≡ done) × (reply ≡ json_ok (pushed resp)))

spec-Comes :
    (resp : PushResponse) (done before : Db) (code : Option String) (refused cached : Option Reply)
    → Other refused
    → Other cached
    → Comes resp done before
        (or_reject code (or_replay refused cached (json_ok (pushed resp), done) before) before)
spec-Comes resp done before (some code) refused cached h k = inl (refl, refl)
spec-Comes resp done before none (some reply) cached h k = inl (refl, h)
spec-Comes resp done before none none (some reply) h k = inl (refl, k)
spec-Comes resp done before none none none h k = inr (refl, refl)

pub push_cases :
    (scope : AuthenticatedDevice) (req : PushRequest) (w : World)
    → let (reply, after) = answer (push_scoped scope req) w in
      ((after.db ≡ w.db) × (is_push reply.body ≡ false))
      ⊎ ((after.db ≡ committed w.host scope req (stamp w.now) w.db)
          × (reply ≡ json_ok (pushed (push_response scope req (stamp w.now) w.db))))
push_cases scope req w = elim (push_all_or_nothing scope req w) [
  | inl (failed, same) ↦ inl (same, ap (λ (r : Reply). is_push r.body) failed)
  | inr (reply, tables) ↦
      let resp = push_response scope req (stamp w.now) w.db in
      let done = committed w.host scope req (stamp w.now) w.db in
      let calm = subst (Comes resp done w.db) (sym (push_meets_spec scope req w)) (
        spec-Comes resp done w.db (validate_sync_push w.host w.cfg.limits req)
          (references_error w.host w.db.blob_refs scope req.ops)
          (cached_reply scope req.idempotency_key w.db)
          (references-Other w.host w.db.blob_refs scope req.ops)
          (cached-Other scope req.idempotency_key w.db)) in
      elim calm [
        | inl (kept, other) ↦ inl (tables ∙ kept, ap (λ (r : Reply). is_push r.body) reply ∙ other)
        | inr (ended, answered) ↦ inr (tables ∙ ended, reply ∙ answered)
      ]
]
