-- ===== src/Admin/Barred.antt =====
-- A user whom the tables let in no more: not with a password, a session, or a device.
use verstak_sync_server.Prelude.{
  ◌≡◌, ◌≢◌, refl, sym, ap, ◌∙◌, subst, String, Bool, true, false, ◌&&◌, some, ◌==◌, find, All,
  All-find, arith, eq_iff, eq_true, find_test, eq_false_of_ne,
}
use verstak_sync_server.Schema.{Db, UserRow, DeviceRow}
use verstak_sync_server.Server.World.{World, stamp}
use verstak_sync_server.Server.Reply.{json_err, internal_error}
use verstak_sync_server.Server.Request.{Request}
use verstak_sync_server.Server.Action.{
  Exit, ok, M, ◌>>=◌, ◌>>◌, pure, stop_if, exec, query, Row, row, no_rows, broken, row_or,
}
use verstak_sync_server.Server.Success.{
  Succeeds, bind-Succeeds, stop_if-Succeeds, query-Succeeds, to_row-some, row_or-Succeeds,
}
use verstak_sync_server.Server.Frame.{Keeps, bind-Keeps, query-Keeps}
use verstak_sync_server.Session.Store.{WebSession, load_session, is_session}
use verstak_sync_server.Session.Safety.{load_session-Succeeds}
use verstak_sync_server.Device.Auth.{
  AuthenticatedDevice, authenticate_device, find_device, device_key, check_owner, is_some,
  text_or_empty, device_of, note_visit, admit_device, touch_device, legacy_device, or_legacy,
  by_legacy_key, by_token_hash,
}
use verstak_sync_server.Device.Credentials.{check_credentials}
use verstak_sync_server.Account.Forms.{web_credentials}
use verstak_sync_server.Admin.Users.{is_user_session}
use verstak_sync_server.Admin.Refused.{
  IsBlocked, IsBarred, not_blocked, check_credentials-barred, web_credentials-barred,
}

-- No token stands for a session of a barred user.
load_session-barred :
    (id token : String) (w w' : World) (s : WebSession)
    → All (λ s. is_user_session id s ≡ false) w.db.sessions
    → Succeeds (load_session token "user") w (some s) w'
    → s.subject_id ≢ id
load_session-barred id token w w' s all h same =
    let (x, found, live, is) = load_session-Succeeds token "user" w w' s h in
    let test = is_session (w.host.sha256_hex token) "user" in
    let scoped =
      and_right (x.token_hash == w.host.sha256_hex token) (x.scope == "user")
        (find_test test w.db.sessions found) in
    let absent = All-find (λ s. is_user_session id s ≡ false) test w.db.sessions all found in
    let named : (x.subject_id == id) ≡ true =
      (eq_iff x.subject_id id).1 (sym (ap (λ (y : WebSession). y.subject_id) is) ∙ same) in
    let clash : true ≡ false = sym (both_true named scoped) ∙ absent in absurd (ground arith)
  where
    and_right : (a b : Bool) → (a && b) ≡ true → b ≡ true
    and_right true b h = h
    and_right false b h = absurd (ground arith)

    both_true : {a b : Bool} → a ≡ true → b ≡ true → (a && b) ≡ true
    both_true p q = rw (p, q) refl

check_owner-Succeeds :
    (id : String) (w w' : World) (t : Unit {0})
    → (id == "") ≡ false
    → All (IsBlocked id) w.db.users
    → Succeeds (check_owner id) w t w'
    → ⊥
unfolding check_owner
check_owner-Succeeds id w w' t h all k =
    let test = λ (u : UserRow). u.id == id in
    let check = λ (u : UserRow). stop_if u.blocked (json_err 403) in
    let (r, v, asked, rest) =
      bind-Succeeds (λ (r : Row UserRow). row_or r internal_error internal_error >>= check) t w'
        (query (λ db. find test db.users)) w (rw h at k) in
    let (u, y, chosen, last) =
      bind-Succeeds check t w' (row_or r internal_error internal_error) v rest in
    let (free, _) = stop_if-Succeeds u.blocked (json_err 403) y w' t last in
    let (is_row, _) = row_or-Succeeds r internal_error internal_error v y u chosen in
    let found =
      to_row-some (find test w.db.users) r u
        (query-Succeeds (λ db. find test db.users) r w v asked).1 is_row in
    not_blocked id test r w v u all asked is_row free
      (eq_true u.id id (find_test test w.db.users {a = u} found))

-- Finding a device changes no table.
tables : World → Db
tables w = w.db

legacy_device-tables : (key : String) → Keeps tables (legacy_device key)
unfolding tables
legacy_device-tables key =
    bind-Keeps tables (query (λ db. find (by_legacy_key key) db.devices))
      (λ r. row_or r (json_err 401) (json_err 401))
      (query-Keeps tables (λ db. find (by_legacy_key key) db.devices) (λ _. refl)) either
  where
    either : (r : Row DeviceRow) → Keeps tables (row_or r (json_err 401) (json_err 401))
    either (row d) = λ _. refl
    either no_rows = λ _. refl
    either broken = λ _. refl

or_legacy-tables : (key : String) (r : Row DeviceRow) → Keeps tables (or_legacy key r)
unfolding tables
or_legacy-tables key (row d) = λ _. refl
or_legacy-tables key no_rows = legacy_device-tables key
or_legacy-tables key broken = legacy_device-tables key

find_device-tables : (key : String) → Keeps tables (find_device key)
unfolding find_device tables
find_device-tables key w =
    let f = λ (db : Db). find (by_token_hash (w.host.sha256_hex key)) db.devices in
    bind-Keeps tables (query f) (or_legacy key) (query-Keeps tables f (λ _. refl))
      (or_legacy-tables key) w

-- No request is authenticated as a device of a barred user.
authenticate_device-barred :
    (id : String) (r : Request) (w w' : World) (a : AuthenticatedDevice)
    → id ≢ ""
    → All (IsBlocked id) w.db.users
    → Succeeds (authenticate_device r) w a w'
    → a.user_id ≢ id
unfolding authenticate_device tables
authenticate_device-barred id r w w' a named all h same =
    let (t, u, first, rest) =
      bind-Succeeds (λ _. find_device (device_key r) >>= admit_device) a w'
        (stop_if (device_key r == "") (json_err 401)) w h in
    let at_u = (stop_if-Succeeds (device_key r == "") (json_err 401) w u t first).1 in
    let (d, v, found, last) = bind-Succeeds admit_device a w' (find_device (device_key r)) u rest in
    let (t1, x, second, more) =
      bind-Succeeds (λ _. check_owner (text_or_empty d.user_id) >> note_visit d) a w'
        (stop_if (is_some d.revoked_at) (json_err 401)) v last in
    let at_x = (stop_if-Succeeds (is_some d.revoked_at) (json_err 401) v x t1 second).1 in
    let (t2, y, owner, end) =
      bind-Succeeds (λ _. note_visit d) a w' (check_owner (text_or_empty d.user_id)) x more in
    let (t3, z, touched, done) =
      bind-Succeeds (λ _. pure (device_of d)) a w' (exec (touch_device (stamp y.now) d.id)) y end in
    let k : ok (device_of d) ≡ ok a = ap (λ (p : Exit AuthenticatedDevice × World). p.0) done in
    let is : device_of d ≡ a = ground arith in
    let searched : tables v ≡ tables u =
      sym (ap (λ (p : Exit DeviceRow × World). tables p.1) found)
      ∙ find_device-tables (device_key r) u in
    let owned : text_or_empty d.user_id ≡ id =
      ap (λ (y : AuthenticatedDevice). y.user_id) is ∙ same in
    check_owner-Succeeds id x y t2 (eq_false_of_ne id "" named)
      (subst (λ (db : Db). All (IsBlocked id) db.users)
        (sym (ap tables at_x ∙ searched ∙ ap tables at_u)) all)
      (subst (λ s. Succeeds (check_owner s) x t2 y) owned owner)

-- The ways to come in as a user: the user name and password, in the API and on the login page, a
-- session's token, and a device's.
pub data ComesInAs (id : String) (w : World) : Type 0 where
  by_password :
      (report : String → String → M (Unit {0})) (login password : String) (u : UserRow)
      (after : World)
      → Succeeds (check_credentials report login password) w u after
      → u.id ≡ id
      → ComesInAs id w
  by_form :
      (login password : String) (u : UserRow) (after : World)
      → Succeeds (web_credentials login password) w u after
      → u.id ≡ id
      → ComesInAs id w
  by_session :
      (token : String) (s : WebSession) (after : World)
      → Succeeds (load_session token "user") w (some s) after
      → s.subject_id ≡ id
      → ComesInAs id w
  by_device :
      (r : Request) (a : AuthenticatedDevice) (after : World)
      → Succeeds (authenticate_device r) w a after
      → a.user_id ≡ id
      → ComesInAs id w

-- Who is barred comes in by none of them.
pub IsBarred-out : (id : String) (w : World) → id ≢ "" → IsBarred id w.db → ComesInAs id w → ⊥
IsBarred-out id w named (users, sessions) (by_password report login password u after h same) =
    check_credentials-barred report password id login w after u users h same
IsBarred-out id w named (users, sessions) (by_form login password u after h same) =
    web_credentials-barred id login password w after u users h same
IsBarred-out id w named (users, sessions) (by_session token s after h same) =
    load_session-barred id token w after s sessions h same
IsBarred-out id w named (users, sessions) (by_device r a after h same) =
    authenticate_device-barred id r w after a named users h same
