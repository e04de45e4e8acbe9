-- ===== src/Blob/Owned.antt =====
-- What validateScopedBlobReferences lets through, as a function of the references on record.
use verstak_sync_server.Prelude.{
  String, refl, Bool, true, false, not, ◌||◌, inl, inr, Bool-cases, Option, none, some,
  Option-cases, List, [], ◌∷◌, ℤ, is_negative, ◌==◌, if◌then◌else◌, find, subst,
}
use verstak_sync_server.Schema.{BlobRefRow}
use verstak_sync_server.Server.World.{World, Host, FilePayload, BlobReference}
use verstak_sync_server.Server.Reply.{Reply, json_err_code, internal_error}
use verstak_sync_server.Server.Action.{Exit, ok, halt, ◌>>=◌, ◌>>◌, pure, stop_if, row_or, to_row}
use verstak_sync_server.Server.Calm.{Ends, pure-Runs, query-Runs, bind-Ends, bind-Ends_halt}
use verstak_sync_server.Device.Auth.{AuthenticatedDevice}
use verstak_sync_server.Sync.Contract.{PushOperation}
use verstak_sync_server.Blob.Reference.{
  is_reference, valid_sha256, same_size, check_stored, check_reference, check_payload,
  check_operation, validate_blob_references,
}

abbrev pub bad_reference : Reply
bad_reference = json_err_code 400 "invalid_blob_reference"

abbrev pub stored_error : Option BlobRefRow → ℤ → Option Reply
stored_error none size = some (json_err_code 400 "blob_not_owned")
stored_error (some r) size = if not (same_size r.size size) then some bad_reference else none

abbrev pub blob_error : Host → List BlobRefRow → AuthenticatedDevice → BlobReference → Option Reply
blob_error host refs scope ref =
    if not (valid_sha256 host ref.sha256) || is_negative ref.size
    then some bad_reference
    else stored_error (find (is_reference scope ref.sha256) refs) ref.size

abbrev pub inline_or_blob_error :
    Host
    → List BlobRefRow
    → AuthenticatedDevice
    → Option String
    → Option BlobReference
    → Option Reply
inline_or_blob_error host refs scope (some text) b =
    some (json_err_code 400 "inline_binary_forbidden")
inline_or_blob_error host refs scope none none = none
inline_or_blob_error host refs scope none (some ref) = blob_error host refs scope ref

abbrev pub payload_reference_error :
    Host → List BlobRefRow → AuthenticatedDevice → Option FilePayload → Option Reply
payload_reference_error host refs scope none = some (json_err_code 400 "invalid_payload")
payload_reference_error host refs scope (some p) =
    inline_or_blob_error host refs scope p.data_base64 p.blob

abbrev pub reference_error :
    Host → List BlobRefRow → AuthenticatedDevice → PushOperation → Option Reply
reference_error host refs scope op =
    if not (op.entity_type == "file") || (op.payload_json == "")
    then none
    else payload_reference_error host refs scope (host.file_payload op.payload_json)

abbrev pub first_reply : Option Reply → Option Reply → Option Reply
first_reply none next = next
first_reply (some reply) next = some reply

unfoldable pub references_error :
    Host → List BlobRefRow → AuthenticatedDevice → List PushOperation → Option Reply
references_error host refs scope [] = none
references_error host refs scope (op ∷ ops) =
    first_reply (reference_error host refs scope op) (references_error host refs scope ops)

abbrev pub exit_of : Option Reply → Exit (Unit {0})
exit_of none = ok tt
exit_of (some reply) = halt reply

pub stop_if-Ends :
    (b : Bool) (reply : Reply) (w : World)
    → Ends (stop_if b reply) w (exit_of (if b then some reply else none)) w.db
stop_if-Ends true reply w = record { steps = w.step; run = refl }
stop_if-Ends false reply w = record { steps = w.step; run = refl }

stored-Ends :
    (found : Option BlobRefRow) (size : ℤ) (w : World)
    → Ends
        (do
          stored ← row_or (to_row found) (json_err_code 400 "blob_not_owned") internal_error
          stop_if (not (same_size stored.size size)) bad_reference)
        w
        (exit_of (stored_error found size))
        w.db
stored-Ends none size w = record { steps = w.step; run = refl }
stored-Ends (some r) size w =
    bind-Ends (pure r) (λ stored. stop_if (not (same_size stored.size size)) bad_reference) w r _ _
      _ (pure-Runs r w)
      (λ n. stop_if-Ends (not (same_size r.size size)) bad_reference (record w { step = n }))

check_stored-Ends :
    (scope : AuthenticatedDevice) (ref : BlobReference) (w : World)
    → Ends
        (check_stored scope ref)
        w
        (exit_of (stored_error (find (is_reference scope ref.sha256) w.db.blob_refs) ref.size))
        w.db
unfolding check_stored
check_stored-Ends scope ref w =
    bind-Ends _ _ w _ _ _ _ (query-Runs (λ db. find (is_reference scope ref.sha256) db.blob_refs) w)
      (λ n.
        stored-Ends (find (is_reference scope ref.sha256) w.db.blob_refs) ref.size
          (record w { step = n }))

guarded-Ends :
    (b : Bool) (scope : AuthenticatedDevice) (ref : BlobReference) (w : World)
    → Ends
        (stop_if b bad_reference >> check_stored scope ref)
        w
        (exit_of (
          if b
          then some bad_reference
          else stored_error (find (is_reference scope ref.sha256) w.db.blob_refs) ref.size))
        w.db
guarded-Ends true scope ref w = record { steps = w.step; run = refl }
guarded-Ends false scope ref w =
    let e = check_stored-Ends scope ref w in record { steps = e.steps; run = e.run }

check_reference-Ends :
    (scope : AuthenticatedDevice) (ref : BlobReference) (w : World)
    → Ends (check_reference scope ref) w (exit_of (blob_error w.host w.db.blob_refs scope ref)) w.db
unfolding check_reference
check_reference-Ends scope ref w =
    let e =
      guarded-Ends (not (valid_sha256 w.host ref.sha256) || is_negative ref.size) scope ref w in
    record { steps = e.steps; run = e.run }

check_payload-Ends :
    (scope : AuthenticatedDevice) (p : Option FilePayload) (w : World)
    → Ends
        (check_payload scope p)
        w
        (exit_of (payload_reference_error w.host w.db.blob_refs scope p))
        w.db
check_payload-Ends scope none w = record { steps = w.step; run = refl }
check_payload-Ends scope (some p) w = go p.data_base64 p.blob
  where
    go :
        (inline : Option String) (b : Option BlobReference)
        → Ends
            (check_payload scope (some (record { data_base64 = inline; blob = b })))
            w
            (exit_of (inline_or_blob_error w.host w.db.blob_refs scope inline b))
            w.db
    go (some text) b = record { steps = w.step; run = refl }
    go none none = record { steps = w.step; run = refl }
    go none (some ref) =
        let e = check_reference-Ends scope ref w in record { steps = e.steps; run = e.run }

check_operation-Ends :
    (scope : AuthenticatedDevice) (op : PushOperation) (w : World)
    → Ends
        (check_operation scope op)
        w
        (exit_of (reference_error w.host w.db.blob_refs scope op))
        w.db
unfolding check_operation
check_operation-Ends scope op w =
    elim (Bool-cases (not (op.entity_type == "file") || (op.payload_json == ""))) [
      | inl e ↦ rw e (pure-Runs tt w)
      | inr e ↦
          let p = check_payload-Ends scope (w.host.file_payload op.payload_json) w in
          rw e (record { steps = p.steps; run = p.run })
    ]

-- The check reads the references, changes nothing, and stops at the first error.
pub validate-Ends :
    (scope : AuthenticatedDevice) (ops : List PushOperation) (w : World)
    → Ends
        (validate_blob_references scope ops)
        w
        (exit_of (references_error w.host w.db.blob_refs scope ops))
        w.db
unfolding validate_blob_references references_error
validate-Ends scope [] w = pure-Runs tt w
validate-Ends scope (op ∷ ops) w =
    elim (Option-cases (reference_error w.host w.db.blob_refs scope op)) [
      | inl e ↦ rw e (
          bind-Ends (check_operation scope op) (λ _. validate_blob_references scope ops) w tt _ _ _
            (subst (λ x. Ends (check_operation scope op) w (exit_of x) w.db) e
              (check_operation-Ends scope op w))
            (λ n. validate-Ends scope ops (record w { step = n })))
      | inr (reply, e) ↦ rw e (
          bind-Ends_halt (check_operation scope op) (λ _. validate_blob_references scope ops) w
            reply _
            (subst (λ x. Ends (check_operation scope op) w (exit_of x) w.db) e
              (check_operation-Ends scope op w)))
    ]
