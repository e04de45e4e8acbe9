-- ===== src/Device/Private.antt =====
-- Nobody sees the devices of another user.
use verstak_sync_server.Prelude.{
  ◌≡◌, sym, ap, subst, String, Bool, true, not, ◌&&◌, ◌==◌, some, List, [], ◌∷◌, map, Bool-cases,
  inl, inr, any, select, All,
}
use verstak_sync_server.Schema.{Db, DeviceRow, UserDeviceRow}
use verstak_sync_server.Server.World.{World}
use verstak_sync_server.Server.Reply.{method_not_allowed}
use verstak_sync_server.Server.Request.{Request, lookup}
use verstak_sync_server.Server.Action.{◌>>=◌, stop_if, query_all}
use verstak_sync_server.Server.Success.{
  Succeeds, bind-Succeeds, stop_if-Succeeds, statement-Succeeds, statement-answer,
}
use verstak_sync_server.Session.Store.{WebSession, require_session}
use verstak_sync_server.Session.Safety.{IsLive}
use verstak_sync_server.Session.Guarded.{require_session-IsLive}
use verstak_sync_server.Admin.Views.{Sqlite}
use verstak_sync_server.Device.Overview.{
  DeviceItem, item_of, is_linked, own_devices, handle_user_devices,
}

-- An order of the rows puts in no row of its own.
abbrev pub InventsNone : Sqlite → Type 0
InventsNone sql =
    (sort : String) (p : DeviceRow → Bool) (ds : List DeviceRow)
    → All (λ d. p d ≡ true) ds
    → All (λ d. p d ≡ true) (sql.order_devices sort ds)

-- The device is one of the user's.
abbrev pub IsOwnItem : String → Db → DeviceItem → Type 0
IsOwnItem user_id db item =
    any (λ (l : UserDeviceRow). (l.user_id == user_id) && (l.device_id == item.id)) db.user_devices
    ≡ true

selected-linked :
    (user_id : String) (db : Db) (matches : DeviceRow → Bool) (ds : List DeviceRow)
    → All
        (λ d. is_linked user_id db d ≡ true)
        (select (λ d. is_linked user_id db d && matches d) ds)
selected-linked user_id db matches [] = tt
selected-linked user_id db matches (d ∷ ds) = elim (Bool-cases (is_linked user_id db d)) [
  | inr e ↦ rw e (selected-linked user_id db matches ds)
  | inl e ↦ elim (Bool-cases (matches d)) [
    | inl f ↦ rw (e, f) (e, selected-linked user_id db matches ds)
    | inr f ↦ rw (e, f) (selected-linked user_id db matches ds)
  ]
]

shown-IsOwnItem :
    (sql : Sqlite) (user_id : String) (matches : DeviceRow → Bool) (db : Db)
    → InventsNone sql
    → All (IsOwnItem user_id db) (map item_of (own_devices sql matches user_id db))
shown-IsOwnItem sql user_id matches db order =
    let rows = select (λ d. is_linked user_id db d && matches d) db.devices in
    items (sql.order_devices "created" rows)
      (order "created" (is_linked user_id db) rows (selected-linked user_id db matches db.devices))
  where
    items :
        (ds : List DeviceRow)
        → All (λ d. is_linked user_id db d ≡ true) ds
        → All (IsOwnItem user_id db) (map item_of ds)
    items [] h = tt
    items (d ∷ ds) (h, hs) = (h, items ds hs)

-- The list of devices is answered only to a request with the cookie of a user's session that is
-- alive, and every device in it is linked to the user of that session, given that SQLite's order
-- puts in no rows of its own.
pub handle_user_devices-IsOwnItem :
    (sql : Sqlite) (r : Request) (items : List DeviceItem) (w w' : World)
    → InventsNone sql
    → Succeeds (handle_user_devices sql r) w items w'
    → (token : String) × (s : WebSession) × (lookup "user_session" r.cookies ≡ some token)
      × IsLive w token "user" s
      × All (IsOwnItem s.subject_id w'.db) items
unfolding handle_user_devices
handle_user_devices-IsOwnItem sql r items w w' order h =
    let listed =
      λ (s : WebSession) (db : Db). map item_of (own_devices sql (λ d. true) s.subject_id db) in
    let (t, x, allowed, rest) =
      bind-Succeeds (λ _. require_session r "user" >>= λ s. query_all (listed s)) items w'
        (stop_if (not (r.method == "GET")) method_not_allowed) w h in
    let at_x = (stop_if-Succeeds (not (r.method == "GET")) method_not_allowed w x t allowed).1 in
    let (s, u, session, asked) =
      bind-Succeeds (λ s. query_all (listed s)) items w' (require_session r "user") x rest in
    let (token, sent, live, _) = require_session-IsLive r "user" s x u session in
    let rows = statement-answer items w' (λ db. (listed s db, db)) u asked in
    let tables = statement-Succeeds items w' (λ db. (listed s db, db)) u asked in
    let own = shown-IsOwnItem sql s.subject_id (λ d. true) u.db order in
    (
      token,
      s,
      sent,
      subst (λ (y : World). IsLive y token "user" s) at_x live,
      subst (All (IsOwnItem s.subject_id w'.db)) rows (
          subst (λ (db : Db). All (IsOwnItem s.subject_id db) (listed s u.db))
            (sym (ap (λ (y : World). y.db) tables)) own),
    )
