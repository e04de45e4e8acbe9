-- ===== src/Blob/Store.antt =====
-- internal/server/blobs.go: binary files, stored once under their SHA-256 and referred to from
-- each vault that has them.
use verstak_sync_server.Prelude.{
  ℕ, ◌+◌, ◌^◌, String, Bool, not, List, [], ◌∷◌, ◌++◌, ◌==◌, ◌&&◌, ◌||◌, eqb, ltb, if◌then◌else◌,
  find, any, select, delete_where, update_where, map, length, exceeds, trim_prefix, ℤ,
}
use verstak_sync_server.Schema.{Db, BlobRefRow, BlobRow}
use verstak_sync_server.Server.World.{World, stamp}
use verstak_sync_server.Server.Reply.{
  Reply, json_ok, json_err_code, internal_error, method_not_allowed, stored, contents,
}
use verstak_sync_server.Server.Request.{Request, lookup}
use verstak_sync_server.Server.Action.{
  Exit, ok, halt, M, ◌>>=◌, ◌>>◌, pure, stop, gets, stop_if, or_stop, exec, exec_unique, query,
  query_all, Row, row, no_rows, broken, row_or, transaction,
}
use verstak_sync_server.Device.Auth.{AuthenticatedDevice, require_sync_scope}
use verstak_sync_server.Blob.Reference.{valid_sha256, is_reference}

abbrev pub sum : List ℕ → ℕ
sum [] = 0
sum (n ∷ ns) = n + sum ns

abbrev pub sizes : List BlobRefRow → List ℕ
sizes refs = map (λ r. r.size) refs

abbrev pub in_vault : String → String → BlobRefRow → Bool
in_vault user vault r = (r.user_id == user) && (r.vault_id == vault)

-- SUM(size) of a vault and of a user.
abbrev pub vault_used : String → String → List BlobRefRow → ℕ
vault_used user vault refs = sum (sizes (select (in_vault user vault) refs))

abbrev pub user_used : String → List BlobRefRow → ℕ
user_used user refs = sum (sizes (select (λ r. r.user_id == user) refs))

-- `used + size > limit` in int64: the sum wraps, and is then negative, from 2 ^ 63 on.
abbrev pub over_quota : ℕ → ℕ → ℤ → Bool
over_quota used size limit = ltb (used + size) (2 ^ 63) && exceeds (used + size) limit

abbrev pub touch_reference : AuthenticatedDevice → String → ℕ → Db → Db
touch_reference scope sha now db = record db {
  blob_refs =
      update_where (is_reference scope sha) (λ r. record r { last_accessed = now }) db.blob_refs;
}

abbrev pub insert_blob : String → ℕ → ℕ → Db → Db
insert_blob sha size now db =
    if any (λ (b : BlobRow). b.sha256 == sha) db.blobs then db else record db {
      blobs = db.blobs ++ record { sha256 = sha; size = size; created_at = now } ∷ [];
    }

abbrev pub new_reference : AuthenticatedDevice → String → ℕ → ℕ → BlobRefRow
new_reference scope sha size now = record {
  user_id = scope.user_id;
  vault_id = scope.vault_id;
  sha256 = sha;
  size = size;
  created_at = now;
  last_accessed = now;
}

abbrev pub insert_reference : AuthenticatedDevice → String → ℕ → ℕ → Db → Db
insert_reference scope sha size now db = record db {
  blob_refs = db.blob_refs ++ new_reference scope sha size now ∷ [];
}

-- The files that the server holds, by their SHA-256.
abbrev pub Files : Type 0
Files = List (String × List ℕ)

abbrev pub has_file : String → Files → Bool
has_file sha files = any (λ f. f.0 == sha) files

abbrev pub move_in : String → List ℕ → M (Unit {0})
move_in sha bytes w = (ok tt, record w { files = w.files ++ (sha, bytes) ∷ [] })

-- os.Remove of the file that this request has moved in, if it stops.
abbrev pub or_remove : Bool → String → Exit (Unit {0}) × World → Exit (Unit {0}) × World
or_remove created sha (ok a, w) = (ok a, w)
or_remove created sha (halt reply, w) =
    (halt reply, if created then record w { files = delete_where (λ f. f.0 == sha) w.files } else w)

-- The rows that make the file reachable.
abbrev pub commit_rows : AuthenticatedDevice → String → ℕ → ℕ → M (Unit {0})
commit_rows scope sha size now = do
  exec (insert_blob sha size now)
  exec_unique (λ db. any (is_reference scope sha) db.blob_refs) internal_error
      (insert_reference scope sha size now)

abbrev pub attach_known : AuthenticatedDevice → String → ℕ → BlobRefRow → M (Unit {0})
attach_known scope sha size found = do
  now ← gets (λ w. stamp w.now)
  stop_if (not (eqb found.size size)) internal_error
  exec (touch_reference scope sha now)

abbrev pub check_quota : AuthenticatedDevice → ℕ → M (Unit {0})
check_quota scope size = do
  limits ← gets (λ w. w.cfg.limits)
  in_this_vault ← query_all (λ db. vault_used scope.user_id scope.vault_id db.blob_refs)
  of_this_user ← query_all (λ db. user_used scope.user_id db.blob_refs)
  stop_if
      (over_quota in_this_vault size limits.max_vault_blob_bytes
        || over_quota of_this_user size limits.max_user_blob_bytes)
      (json_err_code 413 "quota_exceeded")

-- os.Stat and os.Rename: the file is moved in if it is not there.
abbrev pub place : String → List ℕ → M (Unit {0})
place sha bytes = do
  files ← gets (λ w. w.files)
  if has_file sha files then pure tt else move_in sha bytes

abbrev pub attach_new : AuthenticatedDevice → String → List ℕ → M (Unit {0})
attach_new scope sha bytes = do
  now ← gets (λ w. stamp w.now)
  check_quota scope (length bytes)
  place sha bytes
  commit_rows scope sha (length bytes) now

-- What attachBlob does with the reference that it finds.
abbrev pub attach_by : AuthenticatedDevice → String → List ℕ → Row BlobRefRow → M (Unit {0})
attach_by scope sha bytes (row r) = attach_known scope sha (length bytes) r
attach_by scope sha bytes no_rows = attach_new scope sha bytes
attach_by scope sha bytes broken = stop internal_error

abbrev pub attach_rows : AuthenticatedDevice → String → List ℕ → M (Unit {0})
attach_rows scope sha bytes = do
  found ← query (λ db. find (is_reference scope sha) db.blob_refs)
  attach_by scope sha bytes found

-- attachBlob, with the bytes of the temporary file. A file that was not there before is removed
-- if anything fails, Commit included; no step of the file system itself fails.
unfoldable pub attach_blob : AuthenticatedDevice → String → List ℕ → M (Unit {0})
attach_blob scope sha bytes w =
    or_remove (not (has_file sha w.files)) sha (transaction (attach_rows scope sha bytes) w)

-- What the multipart reader makes of an upload: no part, a part that is not a named file, a body
-- over the limit of MaxBytesReader, or the bytes of the file and whether another part follows.
pub data Upload : Type 0 where
  no_part : Upload
  other_part : Upload
  body_too_large : Upload
  file : List ℕ → Bool → Upload

-- handleBlobUpload; `sha256_bytes` is the digest of the bytes, in hexadecimal.
unfoldable pub handle_blob_upload : (List ℕ → String) → AuthenticatedDevice → Upload → M Reply
unfolding attach_blob
handle_blob_upload sha256_bytes scope no_part = stop (json_err_code 400 "invalid_multipart")
handle_blob_upload sha256_bytes scope other_part = stop (json_err_code 400 "invalid_multipart")
handle_blob_upload sha256_bytes scope body_too_large = stop (json_err_code 413 "blob_too_large")
handle_blob_upload sha256_bytes scope (file bytes another) = do
  limits ← gets (λ w. w.cfg.limits)
  stop_if (exceeds (length bytes) limits.max_blob_bytes) (json_err_code 413 "blob_too_large")
  stop_if another (json_err_code 400 "invalid_multipart")
  attach_blob scope (sha256_bytes bytes) bytes
  pure (json_ok (stored (sha256_bytes bytes) (length bytes)))

-- handleBlobDownload
unfoldable pub handle_blob_download : AuthenticatedDevice → String → M Reply
handle_blob_download scope sha = do
  host ← gets (λ w. w.host)
  stop_if (not (valid_sha256 host sha)) (json_err_code 400 "invalid_blob_hash")
  found ← query (λ db. find (is_reference scope sha) db.blob_refs)
  r ← row_or found (json_err_code 404 "blob_not_found") internal_error
  files ← gets (λ w. w.files)
  bytes ← or_stop (lookup sha files) (json_err_code 404 "blob_not_found")
  stop_if (not (eqb (length bytes) r.size)) (json_err_code 500 "blob_unavailable")
  now ← gets (λ w. stamp w.now)
  exec (touch_reference scope sha now)
  pure (json_ok (contents bytes))

-- handleBlobs
unfoldable pub handle_blobs : (List ℕ → String) → Request → Upload → M Reply
unfolding require_sync_scope handle_blob_upload handle_blob_download
handle_blobs sha256_bytes r upload = do
  scope ← require_sync_scope r
  if r.method == "POST"
      then handle_blob_upload sha256_bytes scope upload
      else if r.method == "GET"
      then handle_blob_download scope (trim_prefix r.path "/api/v1/blobs/")
      else stop method_not_allowed
