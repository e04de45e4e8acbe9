-- ===== src/Blob/Quota.antt =====
-- What a new upload adds to the quotas.
use verstak_sync_server.Prelude.{
  ℕ, suc, ◌+◌, ◌≡◌, sym, ap, ◌∙◌, subst, String, Bool, true, false, not, ◌||◌, Bool-cases, inl, inr,
  none, List, [], ◌∷◌, ◌++◌, ◌==◌, any, length, eq_refl, arith, find, select, ◌⊎◌,
}
use verstak_sync_server.Schema.{Db, BlobRefRow, BlobRow}
use verstak_sync_server.Server.World.{World, stamp}
use verstak_sync_server.Server.Reply.{internal_error, json_err_code}
use verstak_sync_server.Server.Action.{
  Exit, ok, halt, ◌>>=◌, ◌>>◌, stop_if, exec, exec_unique, query, query_all, Row, row, no_rows,
  broken, to_row, transaction,
}
use verstak_sync_server.Server.Success.{
  Succeeds, bind-Succeeds, statement-Succeeds, statement-answer, stop_if-Succeeds, query-Succeeds,
  transaction-Succeeds, exec_unique-Succeeds,
}
use verstak_sync_server.Device.Auth.{AuthenticatedDevice}
use verstak_sync_server.Session.Safety.{or_false}
use verstak_sync_server.Blob.Reference.{is_reference}
use verstak_sync_server.Blob.Store.{
  or_remove, has_file, commit_rows, check_quota, place, attach_new, attach_by, attach_rows,
  attach_blob, insert_blob, insert_reference, new_reference, vault_used, user_used, over_quota, sum,
  sizes, in_vault,
}

sum-sizes_append :
    (test : BlobRefRow → Bool) (r : BlobRefRow) (rs : List BlobRefRow)
    → test r ≡ true
    → sum (sizes (select test (rs ++ r ∷ []))) ≡ sum (sizes (select test rs)) + r.size
sum-sizes_append test r [] h = rw h (omega arith)
sum-sizes_append test r (x ∷ rs) h =
    let ih = sum-sizes_append test r rs h in
    elim (Bool-cases (test x)) [ inl e ↦ rw e (omega (arith, ih)) | inr e ↦ rw e ih ]

insert_blob-refs :
    (sha : String) (size now : ℕ) (db : Db) → (insert_blob sha size now db).blob_refs ≡ db.blob_refs
insert_blob-refs sha size now db =
    elim (Bool-cases (any (λ (b : BlobRow). b.sha256 == sha) db.blobs)) [
      | inl e ↦ rw e
      | inr e ↦ rw e
    ]

commit_rows-Succeeds :
    (scope : AuthenticatedDevice) (sha : String) (size now : ℕ) (t : Unit {0}) (w w' : World)
    → Succeeds (commit_rows scope sha size now) w t w'
    → w'.db ≡ insert_reference scope sha size now (insert_blob sha size now w.db)
commit_rows-Succeeds scope sha size now t w w' h =
    let clash = λ (db : Db). any (is_reference scope sha) db.blob_refs in
    let add = insert_reference scope sha size now in
    let (a, u, first, last) =
      bind-Succeeds (λ _. exec_unique clash internal_error add) t w'
        (exec (insert_blob sha size now)) w h in
    let at_u = statement-Succeeds a u (λ db. (tt, insert_blob sha size now db)) w first in
    let at_w' = (exec_unique-Succeeds clash internal_error add t u w' last).1 in
    ap (λ (x : World). x.db) at_w' ∙ ap (λ (x : World). add x.db) at_u

place-db :
    (sha : String) (bytes : List ℕ) (t : Unit {0}) (w w' : World)
    → Succeeds (place sha bytes) w t w'
    → w'.db ≡ w.db
place-db sha bytes t w w' h = elim (Bool-cases (has_file sha w.files)) [
  | inl e ↦ sym (ap (λ (p : Exit (Unit {0}) × World). p.1.db) (rw e at h))
  | inr e ↦ sym (ap (λ (p : Exit (Unit {0}) × World). p.1.db) (rw e at h))
]

-- Both quotas have room for a file of this size.
abbrev pub HasRoom : AuthenticatedDevice → ℕ → World → Type 0
HasRoom scope size w =
    (over_quota (vault_used scope.user_id scope.vault_id w.db.blob_refs) size
        w.cfg.limits.max_vault_blob_bytes
      ≡ false)
    × (over_quota (user_used scope.user_id w.db.blob_refs) size w.cfg.limits.max_user_blob_bytes
        ≡ false)

check_quota-Succeeds :
    (scope : AuthenticatedDevice) (size : ℕ) (t : Unit {0}) (w w' : World)
    → Succeeds (check_quota scope size) w t w'
    → HasRoom scope size w × (w'.db ≡ w.db)
check_quota-Succeeds scope size t w w' h =
    let limits = w.cfg.limits in
    let vault = λ (db : Db). vault_used scope.user_id scope.vault_id db.blob_refs in
    let user = λ (db : Db). user_used scope.user_id db.blob_refs in
    let full = λ (a b : ℕ).
      over_quota a size limits.max_vault_blob_bytes
      || over_quota b size limits.max_user_blob_bytes in
    let refusal = json_err_code 413 "quota_exceeded" in
    let (a, u, first, rest) =
      bind-Succeeds (λ a. query_all user >>= λ b. stop_if (full a b) refusal) t w' (query_all vault)
        w h in
    let at_u = statement-Succeeds a u (λ db. (vault db, db)) w first in
    let a_is = statement-answer a u (λ db. (vault db, db)) w first in
    let (b, v, second, last) =
      bind-Succeeds (λ b. stop_if (full a b) refusal) t w' (query_all user) u rest in
    let at_v = statement-Succeeds b v (λ db. (user db, db)) u second in
    let b_is = statement-answer b v (λ db. (user db, db)) u second in
    let (room, at_w') = stop_if-Succeeds (full a b) refusal v w' t last in
    let same_u : u.db ≡ w.db = ap (λ (x : World). x.db) at_u in
    let same_v : v.db ≡ u.db = ap (λ (x : World). x.db) at_v in
    let counted =
      or_false (over_quota a size limits.max_vault_blob_bytes)
        (over_quota b size limits.max_user_blob_bytes) room in
    (
      (
        subst (λ n. over_quota n size limits.max_vault_blob_bytes ≡ false) (sym a_is) counted.0,
        subst (λ n. over_quota n size limits.max_user_blob_bytes ≡ false)
            (sym b_is ∙ ap user same_u) counted.1,
      ),
      ap (λ (x : World). x.db) at_w' ∙ same_v ∙ same_u,
    )

attach_new-Succeeds :
    (scope : AuthenticatedDevice) (sha : String) (bytes : List ℕ) (t : Unit {0}) (w w' : World)
    → Succeeds (attach_new scope sha bytes) w t w'
    → HasRoom scope (length bytes) w
      × (w'.db
          ≡ insert_reference scope sha
              (length bytes)
              (stamp w.now)
              (insert_blob sha (length bytes) (stamp w.now) w.db))
attach_new-Succeeds scope sha bytes t w w' h =
    let rows = commit_rows scope sha (length bytes) (stamp w.now) in
    let (a, u, first, rest) =
      bind-Succeeds (λ _. place sha bytes >> rows) t w' (check_quota scope (length bytes)) w h in
    let (room, at_u) = check_quota-Succeeds scope (length bytes) a w u first in
    let (b, v, second, last) = bind-Succeeds (λ _. rows) t w' (place sha bytes) u rest in
    let at_v = place-db sha bytes b u v second in
    (
      room,
      commit_rows-Succeeds scope sha (length bytes) (stamp w.now) t v w' last
          ∙ ap
              (λ (d : Db).
                insert_reference scope sha (length bytes) (stamp w.now)
                  (insert_blob sha (length bytes) (stamp w.now) d))
              (at_v ∙ at_u),
    )

or_remove-ok :
    (created : Bool) (sha : String) (r : Exit (Unit {0}) × World) (t : Unit {0}) (w' : World)
    → or_remove created sha r ≡ (ok t, w')
    → r ≡ (ok t, w')
or_remove-ok created sha (ok a, w) t w' h = h
or_remove-ok created sha (halt e, w) t w' h =
    let k : halt e ≡ ok t = ap (λ (p : Exit (Unit {0}) × World). p.0) h in absurd (ground arith)

by_new :
    (scope : AuthenticatedDevice) (sha : String) (bytes : List ℕ) (r : Row BlobRefRow)
    (t : Unit {0}) (w w' : World)
    → (r ≡ broken) ⊎ (r ≡ no_rows)
    → Succeeds (attach_by scope sha bytes r) w t w'
    → Succeeds (attach_new scope sha bytes) w t w'
by_new scope sha bytes (row x) t w w' (inl e) h = absurd (ground arith)
by_new scope sha bytes (row x) t w w' (inr e) h = absurd (ground arith)
by_new scope sha bytes no_rows t w w' e h = h
by_new scope sha bytes broken t w w' e h =
    let k : halt internal_error ≡ ok t = ap (λ (p : Exit (Unit {0}) × World). p.0) h in
    absurd (ground arith)

-- When attachBlob succeeds for a file that the vault has no reference to yet, both quotas had
-- room for it (as the sum of 64 bits is compared with the limit), and the sizes that count for
-- the vault and for the user have grown by exactly its size.
pub attach_blob-quota :
    (scope : AuthenticatedDevice) (sha : String) (bytes : List ℕ) (w w' : World)
    → find (is_reference scope sha) w.db.blob_refs ≡ none
    → Succeeds (attach_blob scope sha bytes) w tt w'
    → HasRoom scope (length bytes) w
      × (vault_used scope.user_id scope.vault_id w'.db.blob_refs
          ≡ vault_used scope.user_id scope.vault_id w.db.blob_refs + length bytes)
      × (user_used scope.user_id w'.db.blob_refs
          ≡ user_used scope.user_id w.db.blob_refs + length bytes)
unfolding attach_blob
attach_blob-quota scope sha bytes w w' new h =
    let ran =
      or_remove-ok (not (has_file sha w.files)) sha (transaction (attach_rows scope sha bytes) w) tt
        w' h in
    let start = record w { step = suc w.step } in
    let f = λ (db : Db). find (is_reference scope sha) db.blob_refs in
    let (v, body, after) = transaction-Succeeds tt w' (attach_rows scope sha bytes) w ran in
    let (r, u, asked, rest) = bind-Succeeds (attach_by scope sha bytes) tt v (query f) start body in
    let (at_u, answer) = query-Succeeds f r start u asked in
    let nothing : (r ≡ broken) ⊎ (r ≡ no_rows) =
      subst (λ o. (r ≡ broken) ⊎ (r ≡ to_row o)) new answer in
    let (room, tables) =
      attach_new-Succeeds scope sha bytes tt u v (by_new scope sha bytes r tt u v nothing rest) in
    let now = stamp u.now in
    let size = length bytes in
    let refs : w'.db.blob_refs ≡ (insert_reference scope sha size now w.db).blob_refs =
      ap (λ (x : World). x.db.blob_refs) after
      ∙ ap (λ (d : Db). d.blob_refs) tables
      ∙ ap (λ l. l ++ (new_reference scope sha size now) ∷ [])
          (insert_blob-refs sha size now u.db ∙ ap (λ (x : World). x.db.blob_refs) at_u) in
    let added = new_reference scope sha size now in
    (
      subst (λ (x : World). HasRoom scope size x) at_u room,
      ap (vault_used scope.user_id scope.vault_id) refs
          ∙ sum-sizes_append (in_vault scope.user_id scope.vault_id) added w.db.blob_refs
              (rw (eq_refl scope.user_id, eq_refl scope.vault_id)),
      ap (user_used scope.user_id) refs
          ∙ sum-sizes_append (λ r. r.user_id == scope.user_id) added w.db.blob_refs
              (eq_refl scope.user_id),
    )
