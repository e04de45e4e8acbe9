-- ===== src/Retention/Log.antt =====
-- What the cleanup never touches.
use verstak_sync_server.Prelude.{
  ◌≡◌, refl, ◌-◌, ◌*◌, ℕ, magnitude, List, [], ◌∷◌, String, ap, true, Bool, Bool-cases, inl, inr,
  select, delete_where, not, ◌==◌, eq_iff, ltb,
}
use verstak_sync_server.Schema.{
  Db, OpRow, BlobRow, BlobRefRow, TombstoneRow, RevisionRow, DeviceRow, UserRow,
}
use verstak_sync_server.Config.{Retention}
use verstak_sync_server.Server.World.{World, stamp}
use verstak_sync_server.Server.Action.{◌>>◌, exec}
use verstak_sync_server.Server.Frame.{Keeps, bind-Keeps, statement-Keeps}
use verstak_sync_server.Session.Store.{cleanup_expired_sessions, expire_sessions}
use verstak_sync_server.Retention.{
  hours, cleanup_retention, expire_tokens, expire_keys, expire_audit, expire_rows, file_call,
  remove_entry, is_upload, remove_old, remove_stale, remove_uploads,
}

-- An entry of the directory of the blobs that no upload has left behind.
abbrev lasting : String × ℕ → Bool
lasting e = not (is_upload e.0)

-- What a vault is rebuilt from, and who may do it.
abbrev pub kept :
    World
    → List OpRow
      × List TombstoneRow
      × List RevisionRow
      × List BlobRow
      × List BlobRefRow
      × List (String × List ℕ)
      × List (String × ℕ)
      × List DeviceRow
      × List UserRow
kept w = (
  w.db.ops,
  w.db.tombstones,
  w.db.revisions,
  w.db.blobs,
  w.db.blob_refs,
  w.files,
  select lasting w.entries,
  w.db.devices,
  w.db.users,
)

keeps :
    (f : Db → Db) → ((w : World) → kept (record w { db = f w.db }) ≡ kept w) → Keeps kept (exec f)
keeps f h = statement-Keeps kept (λ db. (tt, f db)) (λ _. refl) h

expire_rows-kept : (now : ℕ) (keep : Retention) → Keeps kept (expire_rows now keep)
expire_rows-kept now keep =
    let second_part =
      exec (expire_keys (now - hours (magnitude keep.idempotency_hours)))
      >> exec (expire_audit (now - hours (24 * magnitude keep.audit_days))) in
    bind-Keeps kept (exec (expire_tokens now)) (λ _. second_part)
      (keeps (expire_tokens now) (λ _. refl))
      (λ _.
        bind-Keeps kept (exec (expire_keys (now - hours (magnitude keep.idempotency_hours))))
          (λ _. exec (expire_audit (now - hours (24 * magnitude keep.audit_days))))
          (keeps (expire_keys (now - hours (magnitude keep.idempotency_hours))) (λ _. refl))
          (λ _. keeps (expire_audit (now - hours (24 * magnitude keep.audit_days))) (λ _. refl)))

file_call-kept : Keeps kept file_call
file_call-kept w = refl

-- The removal of an upload leaves the other entries.
lasting-removed :
    (name : String) (entries : List (String × ℕ))
    → is_upload name ≡ true
    → select lasting (delete_where (λ e. e.0 == name) entries) ≡ select lasting entries
lasting-removed name [] h = refl
lasting-removed name ((n, t) ∷ entries) h =
    let rest = lasting-removed name entries h in
    elim (Bool-cases (n == name)) [
      | inl e ↦ let same : n ≡ name = (eq_iff n name).0 e in rw (e, same, h) rest
      | inr e ↦ elim (Bool-cases (is_upload n)) [
        | inl u ↦ rw (e, u) rest
        | inr u ↦ rw (e, u, rest) refl
      ]
    ]

remove_entry-kept : (name : String) → is_upload name ≡ true → Keeps kept (remove_entry name)
remove_entry-kept name h = bind-Keeps kept file_call _ file_call-kept (λ _ w.
    ap
      (λ (l : List (String × ℕ)). (
        w.db.ops, w.db.tombstones, w.db.revisions, w.db.blobs, w.db.blob_refs, w.files, l,
        w.db.devices, w.db.users,
      ))
      (lasting-removed name w.entries h))

remove_old-kept :
    (since : ℕ) (name : String) (modified : ℕ)
    → is_upload name ≡ true
    → Keeps kept (remove_old since name modified)
remove_old-kept since name modified h = bind-Keeps kept file_call _ file_call-kept (λ _.
    elim (Bool-cases (ltb modified since)) [
      | inl e ↦ rw e (remove_entry-kept name h)
      | inr e ↦ rw e (λ _. refl)
    ])

remove_stale-kept :
    (since : ℕ) (entries : List (String × ℕ)) → Keeps kept (remove_stale since entries)
remove_stale-kept since [] = λ _. refl
remove_stale-kept since ((name, modified) ∷ rest) = elim (Bool-cases (is_upload name)) [
  | inl e ↦ rw e (
      bind-Keeps kept (remove_old since name modified) _ (remove_old-kept since name modified e)
        (λ _. remove_stale-kept since rest))
  | inr e ↦ rw e (remove_stale-kept since rest)
]

remove_uploads-kept : (since : ℕ) → Keeps kept (remove_uploads since)
remove_uploads-kept since =
    bind-Keeps kept file_call _ file_call-kept (λ _ w. remove_stale-kept since w.entries w)

-- The cleanup leaves every operation, tombstone, revision, blob row, reference, device and user
-- where it is, every file of a blob, and every entry of the directory of the blobs whose name does
-- not begin with `.upload-`, on every run, also on one that a failing step cuts short.
pub cleanup_retention-kept : (w : World) → kept (cleanup_retention w).1 ≡ kept w
unfolding cleanup_retention cleanup_expired_sessions
cleanup_retention-kept w =
    let since = w.now - hours (magnitude w.cfg.retention.temp_upload_hours) in
    bind-Keeps kept cleanup_expired_sessions
      (λ _. expire_rows w.now w.cfg.retention >> remove_uploads since)
      (λ v. keeps (expire_sessions (stamp v.now)) (λ _. refl) v)
      (λ _.
        bind-Keeps kept (expire_rows w.now w.cfg.retention) (λ _. remove_uploads since)
          (expire_rows-kept w.now w.cfg.retention) (λ _. remove_uploads-kept since))
      w
