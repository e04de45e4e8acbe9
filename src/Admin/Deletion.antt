-- ===== src/Admin/Deletion.antt =====
-- The deletion of a user leaves nothing of the user's, and everything of the others'.
use verstak_sync_server.Prelude.{
  suc, ◌≡◌, refl, sym, ap, ◌∙◌, subst, String, Bool, false, not, List, [], ◌∷◌, ◌==◌, Bool-cases,
  inl, inr, select, delete_where, All,
}
use verstak_sync_server.Schema.{
  Db, UserRow, OpRow, RevisionRow, DeviceRow, UserDeviceRow, EmailTokenRow, BlobRefRow,
  IdempotencyRow, TombstoneRow, AuditRow,
}
use verstak_sync_server.Server.World.{World}
use verstak_sync_server.Server.Action.{Exit, ok, halt, exec, exec_all, transaction}
use verstak_sync_server.Server.Rollback.{transaction-halt}
use verstak_sync_server.Server.Success.{
  Succeeds, bind-Succeeds, statement-Succeeds, transaction-Succeeds,
}
use verstak_sync_server.Admin.Users.{
  is_user_session, is_op_of, owner_is, delete_user, delete_user_statements,
}

-- The statements, one after the other.
abbrev pub run_all : List (Db → Db) → Db → Db
run_all [] db = db
run_all (f ∷ fs) db = run_all fs (f db)

pub exec_all-Succeeds :
    (fs : List (Db → Db)) (w w' : World) → Succeeds (exec_all fs) w tt w' → w'.db ≡ run_all fs w.db
exec_all-Succeeds [] w w' h = sym (ap (λ (p : Exit (Unit {0}) × World). p.1.db) h)
exec_all-Succeeds (f ∷ fs) w w' h =
    let (t, u, first, rest) = bind-Succeeds (λ _. exec_all fs) tt w' (exec f) w h in
    let at_u = statement-Succeeds t u (λ db. (tt, f db)) w first in
    exec_all-Succeeds fs u w' rest ∙ ap (λ (x : World). run_all fs x.db) at_u

pub transaction-exec_all :
    (fs : List (Db → Db)) (w w' : World)
    → Succeeds (transaction (exec_all fs)) w tt w'
    → w'.db ≡ run_all fs w.db
transaction-exec_all fs w w' h =
    let (v, body, after) = transaction-Succeeds tt w' (exec_all fs) w h in
    ap (λ (x : World). x.db) after ∙ exec_all-Succeeds fs (record w { step = suc w.step }) v body

-- The tables without a user: what is left of each is what was not the user's, in the old order.
pub record WithoutUser (id : String) (before after : Db) : Type 0 where
  pub users : after.users ≡ select (λ (u : UserRow). not (u.id == id)) before.users
  pub devices :
      after.devices ≡ select (λ (d : DeviceRow). not (owner_is id d.user_id)) before.devices
  pub user_devices :
      after.user_devices ≡ select (λ (l : UserDeviceRow). not (l.user_id == id)) before.user_devices
  pub ops : after.ops ≡ select (λ (o : OpRow). not (o.user_id == id)) before.ops
  pub revisions :
      after.revisions
      ≡ select (λ (r : RevisionRow). not (is_op_of id before.ops r.op_id)) before.revisions
  pub tombstones :
      after.tombstones ≡ select (λ (t : TombstoneRow). not (t.user_id == id)) before.tombstones
  pub idempotency_keys :
      after.idempotency_keys
      ≡ select (λ (k : IdempotencyRow). not (k.user_id == id)) before.idempotency_keys
  pub email_tokens :
      after.email_tokens ≡ select (λ (t : EmailTokenRow). not (t.user_id == id)) before.email_tokens
  pub sessions : after.sessions ≡ select (λ s. not (is_user_session id s)) before.sessions
  pub blob_refs :
      after.blob_refs ≡ select (λ (b : BlobRefRow). not (b.user_id == id)) before.blob_refs
  pub audit_log :
      after.audit_log ≡ select (λ (a : AuditRow). not (a.user_id == id)) before.audit_log
  pub last_revision : after.last_revision ≡ before.last_revision
  pub blobs : after.blobs ≡ before.blobs
  pub smtp_config : after.smtp_config ≡ before.smtp_config

module _ {ℓ} {A : Type ℓ} (test : A → Bool) where
  pub delete_where-select : (xs : List A) → delete_where test xs ≡ select (λ x. not (test x)) xs
  delete_where-select [] = refl
  delete_where-select (x ∷ xs) = elim (Bool-cases (test x)) [
    | inl e ↦ rw e (delete_where-select xs)
    | inr e ↦ rw e (ap (λ ys. x ∷ ys) (delete_where-select xs))
  ]

  pub unselected : (xs : List A) → All (λ x. test x ≡ false) (select (λ x. not (test x)) xs)
  unselected [] = tt
  unselected (x ∷ xs) = elim (Bool-cases (test x)) [
    | inl e ↦ rw e (unselected xs)
    | inr e ↦ rw e (e, unselected xs)
  ]

pub run_all-WithoutUser :
    (id : String) (db : Db) → WithoutUser id db (run_all (delete_user_statements id) db)
run_all-WithoutUser id db = record {
  users = delete_where-select (λ (u : UserRow). u.id == id) db.users;
  devices = delete_where-select (λ (d : DeviceRow). owner_is id d.user_id) db.devices;
  user_devices = delete_where-select (λ (l : UserDeviceRow). l.user_id == id) db.user_devices;
  ops = delete_where-select (λ (o : OpRow). o.user_id == id) db.ops;
  revisions = delete_where-select (λ (r : RevisionRow). is_op_of id db.ops r.op_id) db.revisions;
  tombstones = delete_where-select (λ (t : TombstoneRow). t.user_id == id) db.tombstones;
  idempotency_keys =
      delete_where-select (λ (k : IdempotencyRow). k.user_id == id) db.idempotency_keys;
  email_tokens = delete_where-select (λ (t : EmailTokenRow). t.user_id == id) db.email_tokens;
  sessions = delete_where-select (is_user_session id) db.sessions;
  blob_refs = delete_where-select (λ (b : BlobRefRow). b.user_id == id) db.blob_refs;
  audit_log = delete_where-select (λ (a : AuditRow). a.user_id == id) db.audit_log;
  last_revision = refl;
  blobs = refl;
  smtp_config = refl;
}

-- What becomes of the tables: all of the deletion, or nothing.
abbrev pub AllOrNothing : String → World → Exit (Unit {0}) × World → Type 0
AllOrNothing id w (ok t, w') = WithoutUser id w.db w'.db
AllOrNothing id w (halt reply, w') = w'.db ≡ w.db

-- Whichever statements fail, the deletion of a user leaves the tables without the user's rows and
-- otherwise as they were, or it leaves them all as they were.
pub delete_user-AllOrNothing : (id : String) (w : World) → AllOrNothing id w (delete_user id w)
unfolding delete_user
delete_user-AllOrNothing id w = go (transaction (exec_all (delete_user_statements id)) w) refl
  where
    fs : List (Db → Db)
    fs = delete_user_statements id

    go : (r : Exit (Unit {0}) × World) → transaction (exec_all fs) w ≡ r → AllOrNothing id w r
    go (ok tt, w') h =
        subst (WithoutUser id w.db) (sym (transaction-exec_all fs w w' h))
          (run_all-WithoutUser id w.db)
    go (halt reply, w') h =
        subst (λ (x : World). x.db ≡ w.db) (ap (λ (p : Exit (Unit {0}) × World). p.1) h)
          (transaction-halt (exec_all fs) w reply (ap (λ (p : Exit (Unit {0}) × World). p.0) h))
