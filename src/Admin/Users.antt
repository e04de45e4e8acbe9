-- ===== src/Admin/Users.antt =====
-- The changes to a user or a device that handlers_admin.go and web_admin.go both make.
use verstak_sync_server.Prelude.{
  String, Bool, false, not, Option, none, some, List, [], ◌∷◌, ◌==◌, ◌&&◌, ◌||◌, if◌then◌else◌, any,
  delete_where, update_where,
}
use verstak_sync_server.Schema.{
  Db, UserRow, SessionRow, OpRow, RevisionRow, DeviceRow, UserDeviceRow, EmailTokenRow, BlobRefRow,
  IdempotencyRow, TombstoneRow, AuditRow,
}
use verstak_sync_server.Server.Action.{M, ◌>>◌, pure, exec, exec_all, transaction}
use verstak_sync_server.Account.Tokens.{has_user}

abbrev pub is_user_session : String → SessionRow → Bool
is_user_session id s = (s.subject_id == id) && (s.scope == "user")

abbrev pub end_user_sessions : String → Db → Db
end_user_sessions id db = record db { sessions = delete_where (is_user_session id) db.sessions }

abbrev pub delete_email_tokens : String → Db → Db
delete_email_tokens id db = record db {
  email_tokens = delete_where (λ (t : EmailTokenRow). t.user_id == id) db.email_tokens;
}

abbrev pub delete_blob_refs : String → Db → Db
delete_blob_refs id db = record db {
  blob_refs = delete_where (λ (b : BlobRefRow). b.user_id == id) db.blob_refs;
}

abbrev pub delete_keys : String → Db → Db
delete_keys id db = record db {
  idempotency_keys = delete_where (λ (k : IdempotencyRow). k.user_id == id) db.idempotency_keys;
}

abbrev pub delete_tombstones : String → Db → Db
delete_tombstones id db = record db {
  tombstones = delete_where (λ (t : TombstoneRow). t.user_id == id) db.tombstones;
}

-- op_id IN (SELECT op_id FROM server_ops WHERE user_id=?)
abbrev pub is_op_of : String → List OpRow → String → Bool
is_op_of id ops op_id = any (λ (o : OpRow). (o.user_id == id) && (o.op_id == op_id)) ops

abbrev pub delete_revisions : String → Db → Db
delete_revisions id db = record db {
  revisions = delete_where (λ (r : RevisionRow). is_op_of id db.ops r.op_id) db.revisions;
}

abbrev pub delete_ops : String → Db → Db
delete_ops id db = record db { ops = delete_where (λ (o : OpRow). o.user_id == id) db.ops }

abbrev pub unlink_user : String → Db → Db
unlink_user id db = record db {
  user_devices = delete_where (λ (l : UserDeviceRow). l.user_id == id) db.user_devices;
}

abbrev pub owner_is : String → Option String → Bool
owner_is id none = false
owner_is id (some owner) = owner == id

abbrev pub delete_devices_of : String → Db → Db
delete_devices_of id db = record db {
  devices = delete_where (λ (d : DeviceRow). owner_is id d.user_id) db.devices;
}

abbrev pub delete_audit : String → Db → Db
delete_audit id db = record db {
  audit_log = delete_where (λ (a : AuditRow). a.user_id == id) db.audit_log;
}

abbrev pub delete_user_row : String → Db → Db
delete_user_row id db = record db { users = delete_where (λ (u : UserRow). u.id == id) db.users }

abbrev pub delete_user_statements : String → List (Db → Db)
delete_user_statements id =
    end_user_sessions id
    ∷ delete_email_tokens id
    ∷ delete_blob_refs id
    ∷ delete_keys id
    ∷ delete_tombstones id
    ∷ delete_revisions id
    ∷ delete_ops id
    ∷ unlink_user id
    ∷ delete_devices_of id
    ∷ delete_audit id
    ∷ delete_user_row id
    ∷ []

-- The deletion of a user, the same in the API and on the page.
unfoldable pub delete_user : String → M (Unit {0})
delete_user id = transaction (exec_all (delete_user_statements id))

abbrev pub block_user : String → Bool → Db → Db
block_user id value db = record db {
  users = update_where (λ u. u.id == id) (λ u. record u { blocked = value }) db.users;
}

abbrev pub set_blocked : String → Bool → M (Unit {0})
set_blocked id value = do
  exec (block_user id value)
  if value then exec (end_user_sessions id) else pure tt

-- UPDATE server_users SET username=?, email=? WHERE id=?
abbrev pub edit_clash : String → String → String → Db → Bool
edit_clash id username email db =
    has_user id db
    && any (λ (u : UserRow). not (u.id == id) && ((u.username == username) || (u.email == email)))
        db.users

abbrev pub edit_user : String → String → String → Db → Db
edit_user id username email db = record db {
  users =
      update_where (λ u. u.id == id) (λ u. record u { username = username; email = email })
        db.users;
}

abbrev pub unlink_device : String → Db → Db
unlink_device id db = record db {
  user_devices = delete_where (λ (l : UserDeviceRow). l.device_id == id) db.user_devices;
}

abbrev pub delete_device_row : String → Db → Db
delete_device_row id db = record db {
  devices = delete_where (λ (d : DeviceRow). d.id == id) db.devices;
}

abbrev pub delete_device_statements : String → List (Db → Db)
delete_device_statements id = unlink_device id ∷ delete_device_row id ∷ []
