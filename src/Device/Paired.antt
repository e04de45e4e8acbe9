-- ===== src/Device/Paired.antt =====
-- A device that has been paired, from the transaction of handleClientPair to its first request.
use verstak_sync_server.Prelude.{
  ℕ, suc, ◌≡◌, refl, ap, ◌∙◌, String, true, false, ◌&&◌, Option, none, some, List, [], ◌∷◌, ◌++◌,
  ◌==◌, Bool-cases, inl, inr, find, find-append_none, update_where, any, arith, eq_refl,
}
use verstak_sync_server.Schema.{Db, DeviceRow, UserRow, UserDeviceRow}
use verstak_sync_server.Server.World.{World, Host}
use verstak_sync_server.Server.Reply.{internal_error}
use verstak_sync_server.Server.Request.{Request}
use verstak_sync_server.Server.Action.{ok, ◌>>◌, exec, exec_unique, query, statement}
use verstak_sync_server.Server.Faults.{quiet}
use verstak_sync_server.Server.Success.{
  Succeeds, bind-Succeeds, statement-Succeeds, transaction-Succeeds, exec_unique-Succeeds,
}
use verstak_sync_server.Device.Auth.{
  authenticate_device, require_sync_scope, effective_vault_scope, find_device, device_key,
  check_owner, text_or_empty, device_of, by_token_hash,
}
use verstak_sync_server.Device.Enroll.{
  new_device, pair_device, insert_device, link_device, see_user, device_clash,
}

-- The tables that the transaction leaves when it succeeds.
pair_device-db :
    (d : DeviceRow) (user_id : String) (now : ℕ) (w w' : World)
    → Succeeds (pair_device d user_id now) w tt w'
    → w'.db ≡ see_user user_id now (link_device user_id d.id (insert_device d w.db))
unfolding pair_device
pair_device-db d user_id now w w' h =
    let link = exec (link_device user_id d.id) in
    let see = exec (see_user user_id now) in
    let (v, body, after) =
      transaction-Succeeds tt w'
        (do
          exec_unique (device_clash d) internal_error (insert_device d)
          exec (link_device user_id d.id)
          exec (see_user user_id now))
        w h in
    let x = record w { step = suc w.step } in
    let (t, u, first, rest) =
      bind-Succeeds (λ _. link >> see) tt v
        (exec_unique (device_clash d) internal_error (insert_device d)) x body in
    let (_, at_u) =
      exec_unique-Succeeds (device_clash d) internal_error (insert_device d) t x u first in
    let (t', u', second, third) = bind-Succeeds (λ _. see) tt v link u rest in
    let at_u' = statement-Succeeds t' u' (λ db. (tt, link_device user_id d.id db)) u second in
    let at_v = statement-Succeeds tt v (λ db. (tt, see_user user_id now db)) u' third in
    ap (λ (y : World). y.db) after
    ∙ ap (λ (y : World). y.db) at_v
    ∙ ap (λ (y : World). see_user user_id now y.db) at_u'
    ∙ ap (λ (y : World). see_user user_id now (link_device user_id d.id y.db)) at_u

-- A link changes neither devices nor users.
link_device-devices :
    (user_id id : String) (db : Db) → (link_device user_id id db).devices ≡ db.devices
link_device-devices user_id id db =
    elim (Bool-cases (
      any (λ (l : UserDeviceRow). (l.user_id == user_id) && (l.device_id == id)) db.user_devices)) [
        | inl e ↦ rw e
        | inr e ↦ rw e
      ]

link_device-users : (user_id id : String) (db : Db) → (link_device user_id id db).users ≡ db.users
link_device-users user_id id db =
    elim (Bool-cases (
      any (λ (l : UserDeviceRow). (l.user_id == user_id) && (l.device_id == id)) db.user_devices)) [
        | inl e ↦ rw e
        | inr e ↦ rw e
      ]

find-absent :
    (h : String) (ds : List DeviceRow)
    → any (by_token_hash h) ds ≡ false
    → find (by_token_hash h) ds ≡ none
find-absent h [] e = refl
find-absent h (d ∷ ds) e = elim (Bool-cases (by_token_hash h d)) [
  | inl f ↦ let clash : true ≡ false = rw f at e in absurd (ground arith)
  | inr f ↦ rw f (find-absent h ds (rw f at e))
]

seen_user :
    (id : String) (now : ℕ) (us : List UserRow) (u : UserRow)
    → find (λ (v : UserRow). v.id == id) us ≡ some u
    → find
        (λ (v : UserRow). v.id == id)
        (update_where
          (λ (v : UserRow). v.id == id)
          (λ (v : UserRow). record v { last_seen = some now })
          us)
      ≡ some (record u { last_seen = some now })
seen_user id now [] u h = absurd (ground arith)
seen_user id now (v ∷ us) u h = elim (Bool-cases (v.id == id)) [
  | inl e ↦
      let same : some v ≡ some u = rw e at h in
      let is : v ≡ u = ground arith in
      rw (e, e) (ap (λ (x : UserRow). some (record x { last_seen = some now })) is)
  | inr e ↦ rw (e, e) (seen_user id now us u (rw e at h))
]

-- requireSyncScope where the database does not fail and all is as it should be.
scope_calm :
    (r : Request) (v : World) (d : DeviceRow) (u : UserRow)
    → (device_key r == "") ≡ false
    → find (by_token_hash (v.host.sha256_hex (device_key r))) v.db.devices ≡ some d
    → d.revoked_at ≡ none
    → (text_or_empty d.user_id == "") ≡ false
    → find (λ (x : UserRow). x.id == text_or_empty d.user_id) v.db.users ≡ some u
    → u.blocked ≡ false
    → (text_or_empty d.vault_id == "") ≡ false
    → (require_sync_scope r (quiet v)).0 ≡ ok (device_of d)
unfolding require_sync_scope authenticate_device effective_vault_scope find_device check_owner query
    statement
scope_calm r v d u key found live owned known free in_vault =
    rw (key, found, live, owned, known, free, owned, in_vault) (rw in_vault refl)

-- The transaction of handleClientPair makes a device that is served at once: on a database that
-- does not fail, a request with the new token comes into the scope of the user and the vault that
-- the device was paired for. The user is known and not blocked, the user's id, the vault and the
-- token are not empty, and no other device has the hash of the token.
pub pair_device-require_sync_scope :
    (id name token user_id vault_id : String) (version ip : Option String) (now : ℕ) (u : UserRow)
    (r : Request) (w w' later : World)
    → let d = new_device id name token user_id vault_id version ip now w.host in
      Succeeds (pair_device d user_id now) w tt w'
      → any (by_token_hash (w.host.sha256_hex token)) w.db.devices ≡ false
      → find (λ (x : UserRow). x.id == user_id) w.db.users ≡ some u
      → u.blocked ≡ false
      → (user_id == "") ≡ false
      → (vault_id == "") ≡ false
      → (token == "") ≡ false
      → device_key r ≡ token
      → later.db ≡ w'.db
      → later.host ≡ w.host
      → (require_sync_scope r (quiet later)).0
        ≡ ok (record { device_id = id; user_id = user_id; vault_id = vault_id })
pair_device-require_sync_scope id name token user_id vault_id version ip now u r w w' later h absent
      known free owned in_vault named key db host =
    let d = new_device id name token user_id vault_id version ip now w.host in
    let hash = w.host.sha256_hex token in
    let tables = db ∙ pair_device-db d user_id now w w' h in
    let devices : later.db.devices ≡ w.db.devices ++ d ∷ [] =
      ap (λ (t : Db). t.devices) tables ∙ link_device-devices user_id id (insert_device d w.db) in
    let users : later.db.users
        ≡ update_where (λ (x : UserRow). x.id == user_id)
            (λ (x : UserRow). record x { last_seen = some now }) w.db.users =
      ap (λ (t : Db). t.users) tables
      ∙ ap
          (update_where (λ (x : UserRow). x.id == user_id)
            (λ (x : UserRow). record x { last_seen = some now }))
          (link_device-users user_id id (insert_device d w.db)) in
    let is_new : find (by_token_hash hash) (d ∷ []) ≡ some d = rw (eq_refl hash) refl in
    let found : find (by_token_hash (later.host.sha256_hex (device_key r))) later.db.devices
        ≡ some d =
      ap (λ (g : Host). find (by_token_hash (g.sha256_hex (device_key r))) later.db.devices) host
      ∙ ap (λ k. find (by_token_hash (w.host.sha256_hex k)) later.db.devices) key
      ∙ ap (find (by_token_hash hash)) devices
      ∙ find-append_none (by_token_hash hash) w.db.devices (d ∷ [])
          (find-absent hash w.db.devices absent)
      ∙ is_new in
    let seen =
      ap (find (λ (x : UserRow). x.id == user_id)) users
      ∙ seen_user user_id now w.db.users u known in
    scope_calm r later d (record u { last_seen = some now }) (ap (λ k. k == "") key ∙ named) found
      refl owned seen free in_vault
