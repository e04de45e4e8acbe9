-- ===== src/Tests/Admin.antt =====
-- The administrator's actions and the dashboard at concrete inputs.
use verstak_sync_server.Prelude.{
  ℕ, ◌≡◌, ◌≢◌, refl, sym, ap, ◌∙◌, ◌==◌, String, Bool, true, false, none, some, List, [], ◌∷◌, ◌*◌,
  ◌+◌, ltb, if◌then◌else◌, length, trim_space, arith,
}
use verstak_sync_server.Schema.{Db, UserRow, SessionRow, DeviceRow, empty_db}
use verstak_sync_server.Config.{Config, default_config}
use verstak_sync_server.Config.Normalize.{check_admin}
use verstak_sync_server.Server.World.{World, OneTimeWebSecret, second}
use verstak_sync_server.Server.Request.{Request, JsonBody, Decoded, Trailing}
use verstak_sync_server.Server.Action.{answer, statement, query, transaction, try_exec}
use verstak_sync_server.Server.Success.{Succeeds}
use verstak_sync_server.Session.Store.{require_session, load_session}
use verstak_sync_server.Session.Csrf.{verify_csrf, csrf_candidate, same_origin}
use verstak_sync_server.Audit.{audit_log}
use verstak_sync_server.Proxy.{client_ip}
use verstak_sync_server.Admin.Users.{delete_user, set_blocked}
use verstak_sync_server.Admin.Actions.{handle_admin_web_action, delete_revoked}
use verstak_sync_server.Admin.Deletion.{AllOrNothing, delete_user-AllOrNothing}
use verstak_sync_server.Admin.Barred.{ComesInAs}
use verstak_sync_server.Admin.ShutOut.{delete_user-final, set_blocked-final}
use verstak_sync_server.Admin.Devices.{IsDeleted, delete_revoked-IsDeleted}
use verstak_sync_server.Admin.Secrets.{store_secret, take_secret, secret_lifetime}
use verstak_sync_server.Admin.Once.{store_secret-take_secret}
use verstak_sync_server.Tests.Fixtures.{plain_host, world_of}

abbrev user : String → UserRow
user id = record {
  id = id;
  username = id;
  email = id;
  password_hash = "$pw";
  confirmed = false;
  blocked = false;
  last_seen = none;
  created_at = 0;
}

abbrev session : String → String → SessionRow
session scope subject = record {
  token_hash = "#t";
  csrf_hash = "#c";
  scope = scope;
  subject_id = subject;
  expires_at = 500;
  created_at = 0;
  last_seen = 0;
}

abbrev device : String → DeviceRow
device owner = record {
  id = "dev_1";
  name = "laptop";
  api_key = "disabled";
  token_hash = some "#one";
  token_prefix = none;
  token_suffix = none;
  legacy_api_key = false;
  user_id = some owner;
  vault_id = some "v1";
  client_version = none;
  last_ip = none;
  last_seen = none;
  revoked_at = some 3;
  created_at = 0;
}

abbrev db_with : SessionRow → Db
db_with s = record empty_db {
  users = user "u1" ∷ user "u2" ∷ [];
  devices = device "u1" ∷ [];
  sessions = s ∷ [];
}

abbrev form_request_to : String → String → List (String × String) → Request
form_request_to path cookie form = record {
  method = "POST";
  path = path;
  authorization = "";
  api_key = "";
  content_type = "application/x-www-form-urlencoded";
  origin = "";
  request_host = "notes.example";
  peer = "192.0.2.1";
  forwarded_for = "";
  forwarded_proto = "";
  tls = true;
  cookies = (cookie, "t") ∷ ("csrf_token", "c") ∷ [];
  csrf_header = "c";
  form_valid = true;
  form = form;
  params = [];
  accept_language = "";
}

abbrev admin_world : World
admin_world = record (world_of (db_with (session "admin" "root"))) {
  cfg = record default_config { admin = record { username = "root"; password_hash = "$pw" } ∷ [] };
}

abbrev confirm_request : Request
confirm_request =
    form_request_to "/admin/action" "admin_session"
      (("action", "confirm-user") ∷ ("password", "pw") ∷ ("id", "u1") ∷ [])

abbrev first_confirmed : List UserRow → Bool
first_confirmed [] = false
first_confirmed (u ∷ us) = u.confirmed

confirmed :
    first_confirmed (answer (handle_admin_web_action confirm_request) admin_world).1.db.users ≡ true
unfolding handle_admin_web_action require_session load_session verify_csrf csrf_candidate
    same_origin query try_exec trim_space statement audit_log client_ip check_admin
confirmed = refl

abbrev flag : Db × Config × List (String × OneTimeWebSecret) × List (String × List ℕ) → Bool
flag (db, cfg, secrets, files) = first_confirmed db.users

delete_user-AllOrNothing_example : AllOrNothing "u1" admin_world (delete_user "u1" admin_world)
delete_user-AllOrNothing_example = delete_user-AllOrNothing "u1" admin_world

abbrev after_deletion : World
after_deletion = (delete_user "u1" (world_of (db_with (session "user" "u1")))).1

deleted : Succeeds (delete_user "u1") (world_of (db_with (session "user" "u1"))) tt after_deletion
unfolding delete_user transaction statement
deleted = refl

named : ◌≢◌ {A = String} "u1" ""
named e = let clash : true ≡ false = ap (λ (s : String). s == "u1") e in absurd (ground arith)

delete_user-final_example : ¬ ComesInAs "u1" after_deletion
delete_user-final_example =
    delete_user-final "u1" (world_of (db_with (session "user" "u1"))) after_deletion after_deletion
      named deleted refl

abbrev after_blocking : World
after_blocking = (transaction (set_blocked "u1" true) (world_of (db_with (session "user" "u1")))).1

blocked :
    Succeeds
      (transaction (set_blocked "u1" true))
      (world_of (db_with (session "user" "u1")))
      tt
      after_blocking
unfolding transaction statement
blocked = refl

set_blocked-final_example : ¬ ComesInAs "u1" after_blocking
set_blocked-final_example =
    set_blocked-final "u1" (world_of (db_with (session "user" "u1"))) after_blocking after_blocking
      named blocked refl

device_gone : length (delete_revoked "dev_1" admin_world).1.db.devices ≡ 0
unfolding delete_revoked transaction statement query
device_gone = refl

device_deleted : (delete_revoked "dev_1" admin_world).1.db ≢ admin_world.db
device_deleted e =
    let clash : ◌≡◌ {A = ℕ} 0 1 = sym device_gone ∙ ap (λ (db : Db). length db.devices) e in
    absurd (omega (arith, clash))

delete_revoked-IsDeleted_example :
    IsDeleted "dev_1" admin_world.db (delete_revoked "dev_1" admin_world).1.db
delete_revoked-IsDeleted_example = delete_revoked-IsDeleted "dev_1" admin_world device_deleted

-- The owner of a device revokes it again, at a later time.
abbrev user_world : World
user_world = world_of (db_with (session "user" "u1"))

abbrev revoke_request : Request
revoke_request =
    form_request_to "/api/v1/user/devices/dev_1/revoke" "user_session" (("password", "pw") ∷ [])

abbrev no_body : JsonBody String
no_body limit = (Decoded.malformed, Trailing.malformed)

abbrev first_revoked : List DeviceRow → ℕ
first_revoked [] = 0
first_revoked (d ∷ ds) = elim d.revoked_at [ none ↦ 0 | some when ↦ when ]

abbrev waiting : World
waiting = record admin_world {
  web_secrets = ("#other", record { value = "old"; expires_at = 400 * second }) ∷ [];
}

store_secret-take_secret_example :
    ((now : ℕ)
      → let later : World = record (store_secret "t" "new" waiting) { now = now } in
        (take_secret "t" later).0 ≡ (if ltb now (waiting.now + secret_lifetime) then "new" else ""))
    × ((before later : World)
        → later.host ≡ before.host
        → later.web_secrets ≡ (take_secret "t" before).1.web_secrets
        → (take_secret "t" later).0 ≡ "")
    × ((other : String)
        → plain_host.sha256_hex "t" ≢ plain_host.sha256_hex other
        → (take_secret other (store_secret "t" "new" waiting)).0 ≡ (take_secret other waiting).0)
store_secret-take_secret_example = store_secret-take_secret "t" "new" waiting (refl, tt)
