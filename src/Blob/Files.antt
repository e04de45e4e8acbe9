-- ===== src/Blob/Files.antt =====
-- A rejected upload leaves no file behind.
use verstak_sync_server.Prelude.{
  ℕ, ◌≡◌, refl, sym, ap, ◌∙◌, String, Bool, true, false, not, ◌||◌, Bool-cases, inl, inr, ◌⊎◌,
  Option, List, [], ◌∷◌, ◌++◌, ◌==◌, if◌then◌else◌, any, delete_where, length, eq_refl, arith, find,
  eqb,
}
use verstak_sync_server.Schema.{Db, BlobRefRow}
use verstak_sync_server.Server.World.{World, stamp}
use verstak_sync_server.Server.Reply.{Reply, internal_error, json_err_code}
use verstak_sync_server.Server.Action.{
  Exit, ok, halt, M, continue, ◌>>=◌, ◌>>◌, stop_if, statement, exec, exec_unique, query, query_all,
  Row, row, no_rows, broken, transaction, settle, begin,
}
use verstak_sync_server.Server.Rollback.{transaction-halt}
use verstak_sync_server.Device.Auth.{AuthenticatedDevice}
use verstak_sync_server.Blob.Reference.{is_reference}
use verstak_sync_server.Blob.Store.{
  Files, has_file, or_remove, commit_rows, check_quota, place, attach_new, attach_by, attach_rows,
  attach_blob, insert_blob, insert_reference, touch_reference, vault_used, user_used, over_quota,
}

module _ (G : Files → Type 0) where
  -- Every run keeps a property of the files.
  abbrev Preserves {ℓ} : {A : Type ℓ} → M A → Type 0
  Preserves m = (w : World) → G w.files → G (m w).1.files

  module _ {ℓ κ} {A : Type ℓ} {B : Type κ} where
    continue-Preserves :
        (f : A → M B)
        → ((a : A) → Preserves (f a))
        → (r : Exit A × World) → G r.1.files
        → G (continue f r).1.files
    continue-Preserves f h (ok a, w) g = h a w g
    continue-Preserves f h (halt e, w) g = g

    bind-Preserves :
        (m : M A) (f : A → M B) → Preserves m → ((a : A) → Preserves (f a)) → Preserves (m >>= f)
    bind-Preserves m f k h w g = continue-Preserves f h (m w) (k w g)

  module _ {ℓ} {A : Type ℓ} where
    statement-Preserves : (f : Db → A × Db) → Preserves (statement f)
    unfolding statement
    statement-Preserves f w g = elim (Bool-cases (w.faults w.step)) [
      | inl e ↦ rw e g
      | inr e ↦ rw e g
    ]

    query-Preserves : (f : Db → Option A) → Preserves (query f)
    unfolding query
    query-Preserves f w g = elim (Bool-cases (w.faults w.step)) [ inl e ↦ rw e g | inr e ↦ rw e g ]

    settle-Preserves : (db : Db) (r : Exit A × World) → G r.1.files → G (settle db r).1.files
    settle-Preserves db (halt e, w) g = g
    settle-Preserves db (ok a, w) g = elim (Bool-cases (w.faults w.step)) [
      | inl e ↦ rw e g
      | inr e ↦ rw e g
    ]

  begin-Preserves : Preserves begin
  begin-Preserves = statement-Preserves (λ db. (tt, db))

  module _ {ℓ} {A : Type ℓ} where
    transaction-Preserves : (m : M A) → Preserves m → Preserves (transaction m)
    unfolding transaction
    transaction-Preserves m h w g =
        settle-Preserves w.db ((begin >> m) w)
          (bind-Preserves begin (λ _. m) begin-Preserves (λ _. h) w g)

  exec_unique-Preserves :
      (clash : Db → Bool) (taken : Reply) (f : Db → Db) → Preserves (exec_unique clash taken f)
  unfolding exec_unique
  exec_unique-Preserves clash taken f w g = elim (Bool-cases (w.faults w.step)) [
    | inl e ↦ rw e g
    | inr e ↦ elim (Bool-cases (clash w.db)) [ inl c ↦ rw (e, c) g | inr c ↦ rw (e, c) g ]
  ]

  module _ (scope : AuthenticatedDevice) (sha : String) (bytes : List ℕ)
      (moved : (fs : Files) → has_file sha fs ≡ false → G fs → G (fs ++ (sha, bytes) ∷ [])) where
    place-Preserves : Preserves (place sha bytes)
    place-Preserves w g = elim (Bool-cases (has_file sha w.files)) [
      | inl e ↦ rw e g
      | inr e ↦ rw e (moved w.files e g)
    ]

    stop_if-Preserves : (b : Bool) (reply : Reply) → Preserves (stop_if b reply)
    stop_if-Preserves b reply w g = g

    commit_rows-Preserves : (size now : ℕ) → Preserves (commit_rows scope sha size now)
    commit_rows-Preserves size now =
        bind-Preserves (exec (insert_blob sha size now))
          (λ _.
            exec_unique (λ db. any (is_reference scope sha) db.blob_refs) internal_error
              (insert_reference scope sha size now))
          (statement-Preserves (λ db. (tt, insert_blob sha size now db)))
          (λ _.
            exec_unique-Preserves (λ db. any (is_reference scope sha) db.blob_refs) internal_error
              (insert_reference scope sha size now))

    check_quota-Preserves : (size : ℕ) → Preserves (check_quota scope size)
    check_quota-Preserves size w g =
        let limits = w.cfg.limits in
        let vault = λ (db : Db). vault_used scope.user_id scope.vault_id db.blob_refs in
        let user = λ (db : Db). user_used scope.user_id db.blob_refs in
        let refuse = λ (v u : ℕ).
          stop_if
            (over_quota v size limits.max_vault_blob_bytes
              || over_quota u size limits.max_user_blob_bytes)
            (json_err_code 413 "quota_exceeded") in
        bind-Preserves (query_all vault) (λ v. query_all user >>= λ u. refuse v u)
          (statement-Preserves (λ db. (vault db, db)))
          (λ v.
            bind-Preserves (query_all user) (λ u. refuse v u)
              (statement-Preserves (λ db. (user db, db))) (λ u _ g'. g'))
          w g

    attach_new-Preserves : Preserves (attach_new scope sha bytes)
    attach_new-Preserves w =
        let rows = commit_rows scope sha (length bytes) (stamp w.now) in
        bind-Preserves (check_quota scope (length bytes)) (λ _. place sha bytes >> rows)
          (check_quota-Preserves (length bytes))
          (λ _.
            bind-Preserves (place sha bytes) (λ _. rows) place-Preserves
              (λ _. commit_rows-Preserves (length bytes) (stamp w.now)))
          w

    attach_by-Preserves : (r : Row BlobRefRow) → Preserves (attach_by scope sha bytes r)
    attach_by-Preserves (row r) w =
        bind-Preserves (stop_if (not (eqb r.size (length bytes))) internal_error)
          (λ _. exec (touch_reference scope sha (stamp w.now))) (λ _ g. g)
          (λ _. statement-Preserves (λ db. (tt, touch_reference scope sha (stamp w.now) db))) w
    attach_by-Preserves no_rows w = attach_new-Preserves w
    attach_by-Preserves broken w = λ g. g

    attached-Preserves : Preserves (transaction (attach_rows scope sha bytes))
    attached-Preserves =
        let f = λ (db : Db). find (is_reference scope sha) db.blob_refs in
        transaction-Preserves (attach_rows scope sha bytes) (
          bind-Preserves (query f) (attach_by scope sha bytes) (query-Preserves f)
            attach_by-Preserves)

delete-absent :
    (sha : String) (fs : Files) → has_file sha fs ≡ false → delete_where (λ f. f.0 == sha) fs ≡ fs
delete-absent sha [] h = refl
delete-absent sha (f ∷ fs) h = elim (Bool-cases (f.0 == sha)) [
  | inl e ↦ let clash : true ≡ false = rw e at h in absurd (ground arith)
  | inr e ↦ rw e (ap (λ gs. f ∷ gs) (delete-absent sha fs (rw e at h)))
]

delete-moved :
    (sha : String) (bytes : List ℕ) (fs : Files)
    → delete_where (λ f. f.0 == sha) (fs ++ (sha, bytes) ∷ []) ≡ delete_where (λ f. f.0 == sha) fs
delete-moved sha bytes [] = rw (eq_refl sha)
delete-moved sha bytes (f ∷ fs) = elim (Bool-cases (f.0 == sha)) [
  | inl e ↦ rw e (delete-moved sha bytes fs)
  | inr e ↦ rw e (ap (λ gs. f ∷ gs) (delete-moved sha bytes fs))
]

or_remove-halt :
    (created : Bool) (sha : String) (r : Exit (Unit {0}) × World) (reply : Reply)
    → (or_remove created sha r).0 ≡ halt reply
    → (r.0 ≡ halt reply)
      × ((or_remove created sha r).1.db ≡ r.1.db)
      × ((or_remove created sha r).1.files
          ≡ (if created then delete_where (λ f. f.0 == sha) r.1.files else r.1.files))
or_remove-halt created sha (ok a, w) reply h = absurd (ground arith)
or_remove-halt true sha (halt e, w) reply h = (h, refl, refl)
or_remove-halt false sha (halt e, w) reply h = (h, refl, refl)

-- An upload that attachBlob refuses or cannot finish, for whatever reason, Commit included, leaves
-- every table and every stored file as it was.
pub attach_blob-halt :
    (scope : AuthenticatedDevice) (sha : String) (bytes : List ℕ) (w : World) (reply : Reply)
    → (attach_blob scope sha bytes w).0 ≡ halt reply
    → ((attach_blob scope sha bytes w).1.db ≡ w.db)
      × ((attach_blob scope sha bytes w).1.files ≡ w.files)
unfolding attach_blob
attach_blob-halt scope sha bytes w reply h =
    let run = transaction (attach_rows scope sha bytes) w in
    let (stopped, tables, files) = or_remove-halt (not (has_file sha w.files)) sha run reply h in
    (
      tables ∙ transaction-halt (attach_rows scope sha bytes) w reply stopped,
      files ∙ kept_files (Bool-cases (has_file sha w.files)),
    )
  where
    kept_files :
        (has_file sha w.files ≡ true) ⊎ (has_file sha w.files ≡ false)
        → (if not (has_file sha w.files)
            then delete_where
                (λ f. f.0 == sha)
                (transaction (attach_rows scope sha bytes) w).1.files
            else (transaction (attach_rows scope sha bytes) w).1.files)
          ≡ w.files
    kept_files (inl e) = rw e (
        attached-Preserves (λ fs. fs ≡ w.files) scope sha bytes
          (λ fs absent same.
            let clash : false ≡ true = sym absent ∙ ap (has_file sha) same ∙ e in
            absurd (ground arith))
          w refl)
    kept_files (inr e) = rw e (
        attached-Preserves (λ fs. delete_where (λ f. f.0 == sha) fs ≡ w.files) scope sha bytes
          (λ fs absent same. delete-moved sha bytes fs ∙ same) w (delete-absent sha w.files e))
