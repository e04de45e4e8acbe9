-- ===== src/Admin/Devices.antt =====
-- Only a device that has been revoked is deleted on the administrator's page.
use verstak_sync_server.Prelude.{
  suc, ◌≡◌, ◌≢◌, refl, sym, ap, ◌∙◌, subst, String, true, not, Option, some, List, ◌==◌, find,
  select,
}
use verstak_sync_server.Schema.{Db, DeviceRow, UserDeviceRow}
use verstak_sync_server.Server.World.{World}
use verstak_sync_server.Server.Reply.{internal_error}
use verstak_sync_server.Server.Action.{
  Exit, ok, halt, M, ◌>>=◌, ◌>>◌, query, Row, row_or, stop_if, exec_all, transaction,
}
use verstak_sync_server.Server.Rollback.{transaction-halt}
use verstak_sync_server.Server.Success.{
  Succeeds, bind-Succeeds, stop_if-Succeeds, query-Succeeds, to_row-some, row_or-Succeeds,
  transaction-Succeeds,
}
use verstak_sync_server.Locale.{web_error}
use verstak_sync_server.Session.Safety.{not-false}
use verstak_sync_server.Device.Auth.{is_some}
use verstak_sync_server.Admin.Users.{delete_device_statements}
use verstak_sync_server.Admin.Actions.{delete_revoked}
use verstak_sync_server.Admin.Deletion.{run_all, exec_all-Succeeds, delete_where-select}

-- What has happened to the tables, if anything has: the device was on record and revoked, and
-- with it are gone its links to users, and nothing else.
abbrev pub IsDeleted : String → Db → Db → Type 0
IsDeleted id before after =
    (d : DeviceRow) × (find (λ (d : DeviceRow). d.id == id) before.devices ≡ some d)
    × (is_some d.revoked_at ≡ true)
    × (after ≡ record before {
      devices = select (λ (d : DeviceRow). not (d.id == id)) before.devices;
      user_devices = select (λ (l : UserDeviceRow). not (l.device_id == id)) before.user_devices;
    })

abbrev found_device : String → Db → Option DeviceRow
found_device id db = find (λ (d : DeviceRow). d.id == id) db.devices

abbrev delete_found : String → DeviceRow → M (Unit {0})
delete_found id d =
    stop_if (not (is_some d.revoked_at)) (web_error 409 "error.deviceMustBeRevoked")
    >> exec_all (delete_device_statements id)

abbrev delete_row : String → Row DeviceRow → M (Unit {0})
delete_row id r = row_or r (web_error 404 "error.badRequest") internal_error >>= delete_found id

deleted :
    (id : String) (w w' : World)
    → Succeeds (query (found_device id) >>= delete_row id) w tt w'
    → IsDeleted id w.db w'.db
deleted id w w' h =
    let missing = web_error 404 "error.badRequest" in
    let conflict = web_error 409 "error.deviceMustBeRevoked" in
    let statements = delete_device_statements id in
    let (r, u, asked, rest) = bind-Succeeds (delete_row id) tt w' (query (found_device id)) w h in
    let (at_u, answer) = query-Succeeds (found_device id) r w u asked in
    let (d, v, chosen, more) =
      bind-Succeeds (delete_found id) tt w' (row_or r missing internal_error) u rest in
    let (is_row, at_v) = row_or-Succeeds r missing internal_error u v d chosen in
    let live = not (is_some d.revoked_at) in
    let (t, x, tested, last) =
      bind-Succeeds (λ _. exec_all statements) tt w' (stop_if live conflict) v more in
    let (revoked, at_x) = stop_if-Succeeds live conflict v x t tested in
    let same = at_x ∙ at_v ∙ at_u in
    let gone = λ (ds : List DeviceRow) (ls : List UserDeviceRow). record w.db {
      devices = ds;
      user_devices = ls;
    } in
    (
      d,
      to_row-some (found_device id w.db) r d answer is_row,
      not-false (is_some d.revoked_at) revoked,
      exec_all-Succeeds statements x w' last
          ∙ ap (λ (y : World). run_all statements y.db) same
          ∙ ap (λ ds. gone ds (run_all statements w.db).user_devices)
              (delete_where-select (λ (d : DeviceRow). d.id == id) w.db.devices)
          ∙ ap (gone (select (λ (d : DeviceRow). not (d.id == id)) w.db.devices))
              (delete_where-select (λ (l : UserDeviceRow). l.device_id == id) w.db.user_devices),
    )

-- If the form `delete-device` changes any table then the device with this id was on record and
-- revoked, and what is gone is its row and its links to users, and nothing else. So it is for
-- every run, whichever statements fail.
pub delete_revoked-IsDeleted :
    (id : String) (w : World)
    → (delete_revoked id w).1.db ≢ w.db
    → IsDeleted id w.db (delete_revoked id w).1.db
unfolding delete_revoked
delete_revoked-IsDeleted id w h = go (delete_revoked id w) refl
  where
    body : M (Unit {0})
    body = query (found_device id) >>= delete_row id

    go :
        (e : Exit (Unit {0}) × World)
        → transaction body w ≡ e
        → IsDeleted id w.db (transaction body w).1.db
    go (ok tt, w') same =
        let (v, run, after) = transaction-Succeeds tt w' body w same in
        let end = ap (λ (p : Exit (Unit {0}) × World). p.1.db) same in
        subst (IsDeleted id w.db) (sym (end ∙ ap (λ (x : World). x.db) after))
          (deleted id (record w { step = suc w.step }) v run)
    go (halt reply, w') same =
        absurd (h (transaction-halt body w reply (ap (λ (p : Exit (Unit {0}) × World). p.0) same)))
