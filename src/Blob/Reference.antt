-- ===== src/Blob/Reference.antt =====
-- internal/server/blobs.go, validSHA256 and validateScopedBlobReferences.
use verstak_sync_server.Prelude.{
  ℕ, String, len, Bool, true, false, ◌&&◌, ◌||◌, not, Option, none, some, List, [], ◌∷◌, ℤ, pos,
  negsuc, is_negative, leb, eqb, ◌==◌, if◌then◌else◌, find, codes,
}
use verstak_sync_server.Schema.{BlobRefRow}
use verstak_sync_server.Server.World.{Host, FilePayload, BlobReference}
use verstak_sync_server.Server.Reply.{json_err_code, internal_error}
use verstak_sync_server.Server.Action.{M, ◌>>=◌, ◌>>◌, pure, gets, stop_if, stop, query, row_or}
use verstak_sync_server.Device.Auth.{AuthenticatedDevice}
use verstak_sync_server.Sync.Contract.{PushOperation}

-- A digit that hex.DecodeString reads.
abbrev pub is_hex_digit : ℕ → Bool
is_hex_digit c =
    (leb b'0' c && leb c b'9') || (leb b'a' c && leb c b'f') || (leb b'A' c && leb c b'F')

abbrev pub all_codes : (ℕ → Bool) → List ℕ → Bool
all_codes test [] = true
all_codes test (c ∷ cs) = test c && all_codes test cs

-- validSHA256; the length is even, so hex.DecodeString looks at the digits alone.
unfoldable pub valid_sha256 : Host → String → Bool
valid_sha256 host v =
    if not (eqb (len v) 64) || not (host.to_lower v == v)
    then false
    else all_codes is_hex_digit (codes v)

abbrev pub same_size : ℕ → ℤ → Bool
same_size n (pos m) = eqb n m
same_size n (negsuc m) = false

-- WHERE user_id=? AND vault_id=? AND sha256=?
abbrev pub is_reference : AuthenticatedDevice → String → BlobRefRow → Bool
is_reference scope sha row =
    (row.user_id == scope.user_id) && (row.vault_id == scope.vault_id) && (row.sha256 == sha)

-- The part that reads the reference on record.
unfoldable pub check_stored : AuthenticatedDevice → BlobReference → M (Unit {0})
check_stored scope ref = do
  found ← query (λ db. find (is_reference scope ref.sha256) db.blob_refs)
  stored ← row_or found (json_err_code 400 "blob_not_owned") internal_error
  stop_if (not (same_size stored.size ref.size)) (json_err_code 400 "invalid_blob_reference")

unfoldable pub check_reference : AuthenticatedDevice → BlobReference → M (Unit {0})
unfolding valid_sha256 check_stored
check_reference scope ref = do
  host ← gets (λ w. w.host)
  stop_if (not (valid_sha256 host ref.sha256) || is_negative ref.size)
      (json_err_code 400 "invalid_blob_reference")
  check_stored scope ref

abbrev pub check_blob : AuthenticatedDevice → Option BlobReference → M (Unit {0})
check_blob scope none = pure tt
check_blob scope (some ref) = check_reference scope ref

abbrev pub check_payload : AuthenticatedDevice → Option FilePayload → M (Unit {0})
check_payload scope none = stop (json_err_code 400 "invalid_payload")
check_payload scope (some p) = elim p.data_base64 [
  | some inline ↦ stop (json_err_code 400 "inline_binary_forbidden")
  | none ↦ check_blob scope p.blob
]

unfoldable pub check_operation : AuthenticatedDevice → PushOperation → M (Unit {0})
unfolding check_reference
check_operation scope op =
    if not (op.entity_type == "file") || (op.payload_json == "")
    then pure tt
    else do host ← gets (λ w. w.host); check_payload scope (host.file_payload op.payload_json)

-- validateScopedBlobReferences
unfoldable pub validate_blob_references : AuthenticatedDevice → List PushOperation → M (Unit {0})
unfolding check_operation
validate_blob_references scope [] = pure tt
validate_blob_references scope (op ∷ ops) = do
  check_operation scope op
  validate_blob_references scope ops
