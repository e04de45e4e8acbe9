-- ===== src/Tests/Access.antt =====
-- Devices, sessions, limits and settings at concrete inputs.
use verstak_sync_server.Prelude.{
  ◌+◌, ◌≡◌, has_prefix, ◌≢◌, refl, String, true, false, none, some, List, [], ◌∷◌, arith, negsuc,
  ◌*◌, ◌≤◌, length, trim_space, trim_prefix, ltb, ◌==◌, ◌&&◌, if◌then◌else◌,
}
use verstak_sync_server.Schema.{Db, DeviceRow, empty_db}
use verstak_sync_server.Config.{Config, default_config, default_limits}
use verstak_sync_server.Server.World.{stamp, World, second, instant}
use verstak_sync_server.Server.Request.{Request, lookup, value_of}
use verstak_sync_server.Server.Action.{ok, exec_unique, statement, query, transaction, try_exec}
use verstak_sync_server.Server.Success.{Succeeds}
use verstak_sync_server.Device.Auth.{
  AuthenticatedDevice, authenticate_device, find_device, device_key, check_owner,
}
use verstak_sync_server.Device.Enroll.{revoke_device}
use verstak_sync_server.Device.Revocation.{revoke_device-final}
use verstak_sync_server.Rate.{RatePolicy, zero_bucket, allow, minute, max_rate_limit_buckets}
use verstak_sync_server.Rate.Bounds.{let_through, let_through-window, allow-bounded}
use verstak_sync_server.Retention.{cleanup_retention, hours}
use verstak_sync_server.Retention.Log.{kept, cleanup_retention-kept}
use verstak_sync_server.Session.Store.{
  cleanup_expired_sessions, create_session, session_lifetime, WebSession, load_session,
  require_session,
}
use verstak_sync_server.Session.Csrf.{
  same_origin, verify_csrf, csrf_candidate, require_admin_mutation,
}
use verstak_sync_server.Session.Safety.{IsLive, IsSent}
use verstak_sync_server.Session.Guarded.{require_admin_mutation-Succeeds}
use verstak_sync_server.Session.Lifetime.{loaded, create_session-load_session}
use verstak_sync_server.Server.Faults.{quiet}
use verstak_sync_server.Tests.Fixtures.{plain_host, world_of, log_db}

abbrev pair_policy : RatePolicy
pair_policy = record { limit = 5; window = 15 * minute }

-- Seven attempts on one key, with one on another key between them: five are let through.
let_through-window_example :
    let_through
      (λ k. pair_policy)
      "pair:ip:a"
      ((0, "pair:ip:a")
        ∷ (1, "pair:ip:a")
        ∷ (2, "pair:ip:b")
        ∷ (3, "pair:ip:a")
        ∷ (4, "pair:ip:a")
        ∷ (5, "pair:ip:a")
        ∷ (6, "pair:ip:a")
        ∷ (7, "pair:ip:a")
        ∷ [])
      (("pair:ip:c", zero_bucket) ∷ [])
    ≡ 5
let_through-window_example =
    let_through-window (λ k. pair_policy) "pair:ip:a" 0
      ((1, "pair:ip:a")
        ∷ (2, "pair:ip:b")
        ∷ (3, "pair:ip:a")
        ∷ (4, "pair:ip:a")
        ∷ (5, "pair:ip:a")
        ∷ (6, "pair:ip:a")
        ∷ (7, "pair:ip:a")
        ∷ [])
      (("pair:ip:c", zero_bucket) ∷ []) (omega arith) (omega arith) refl
      (
        omega arith,
        (
          omega arith,
          (omega arith, (omega arith, (omega arith, (omega arith, (omega arith, tt))))),
        ),
      )
      (omega arith)

allow-bounded_example :
    length (allow 7 "pair:ip:b" pair_policy (("pair:ip:a", zero_bucket) ∷ [])).1
    ≤ max_rate_limit_buckets
allow-bounded_example =
    allow-bounded 7 "pair:ip:b" pair_policy (("pair:ip:a", zero_bucket) ∷ []) (refl, tt)
      (omega arith)

-- A file that asks for pages of no operation at all.
abbrev odd_config : Config
odd_config = record default_config { limits = record default_limits { max_pull_page = negsuc 4 } }

abbrev pub device : String → String → DeviceRow
device id hash = record {
  id = id;
  name = "laptop";
  api_key = "disabled";
  token_hash = some hash;
  token_prefix = none;
  token_suffix = none;
  legacy_api_key = false;
  user_id = none;
  vault_id = some "v1";
  client_version = none;
  last_ip = none;
  last_seen = none;
  revoked_at = none;
  created_at = 0;
}

abbrev pub request_with : String → List (String × String) → Request
request_with token cookies = record {
  method = "POST";
  path = "/";
  authorization = token;
  api_key = "";
  content_type = "";
  origin = "";
  request_host = "notes.example";
  peer = "192.0.2.1";
  forwarded_for = "";
  forwarded_proto = "";
  tls = true;
  cookies = cookies;
  csrf_header = "c";
  form_valid = true;
  form = [];
  params = [];
  accept_language = "";
}

abbrev devices_db : Db
devices_db = record empty_db { devices = device "dev_1" "#one" ∷ device "dev_2" "#two" ∷ [] }

abbrev after_revoking : World
after_revoking = (revoke_device "dev_1" 7 (world_of devices_db)).1

revoked : Succeeds (revoke_device "dev_1" 7) (world_of devices_db) tt after_revoking
unfolding revoke_device transaction statement
revoked = refl

abbrev two : AuthenticatedDevice
two = record { device_id = "dev_2"; user_id = ""; vault_id = "v1" }

authenticated :
    Succeeds
      (authenticate_device (request_with "two" []))
      after_revoking
      two
      (authenticate_device (request_with "two" []) after_revoking).1
unfolding revoke_device transaction statement authenticate_device query find_device device_key
    check_owner trim_prefix
authenticated = refl

revoke_device-final_example : two.device_id ≢ "dev_1"
revoke_device-final_example =
    revoke_device-final "dev_1" 7 (world_of devices_db) after_revoking revoked
      (request_with "two" []) after_revoking
      (authenticate_device (request_with "two" []) after_revoking).1 two refl authenticated

abbrev admin_db : Db
admin_db = record empty_db {
  sessions =
      record {
        token_hash = "#t";
        csrf_hash = "#c";
        scope = "admin";
        subject_id = "root";
        expires_at = 500;
        created_at = 0;
        last_seen = 0;
      }
      ∷ [];
}

abbrev admin_request : Request
admin_request = request_with "" (("admin_session", "t") ∷ ("csrf_token", "c") ∷ [])

admitted :
    Succeeds
      (require_admin_mutation admin_request)
      (world_of admin_db)
      tt
      (require_admin_mutation admin_request (world_of admin_db)).1
unfolding require_admin_mutation require_session load_session verify_csrf csrf_candidate same_origin
    query try_exec trim_space
admitted = refl

require_admin_mutation-Succeeds_example :
    (token : String) × (s : WebSession) × (lookup "admin_session" admin_request.cookies
      ≡ some token)
    × IsLive (world_of admin_db) token "admin" s
    × IsSent admin_request (value_of "csrf_token" admin_request.cookies)
    × (plain_host.sha256_hex (value_of "csrf_token" admin_request.cookies) ≡ s.csrf_hash)
    × (same_origin plain_host default_config admin_request ≡ true)
require_admin_mutation-Succeeds_example =
    require_admin_mutation-Succeeds admin_request (world_of admin_db)
      (require_admin_mutation admin_request (world_of admin_db)).1 admitted

abbrev logged_in_world : World
logged_in_world = (create_session "user" "u1" (world_of empty_db)).1

logged_in :
    Succeeds (create_session "user" "u1") (world_of empty_db) ("secret", "secret") logged_in_world
unfolding create_session exec_unique
logged_in = refl

create_session-load_session_example :
    (load_session "secret" "user" (quiet logged_in_world)).0
    ≡ ok (
        if ("user" == "user")
          && ltb logged_in_world.now (instant (stamp (100 * second + session_lifetime)))
        then some (loaded plain_host "user" "u1" "secret" "secret" (100 * second))
        else none)
unfolding create_session exec_unique
create_session-load_session_example =
    create_session-load_session "user" "u1" "secret" "secret" "user" (world_of empty_db)
      logged_in_world logged_in_world logged_in refl refl refl

-- An unfinished upload, a directory of blobs and a request key, all older than the limits.
abbrev aged : World
aged =
    record (world_of (record log_db {
      idempotency_keys =
          record {
            user_id = "u1";
            vault_id = "v1";
            idempotency_key = "k0";
            response_json = "r";
            created_at = 0;
          }
          ∷ [];
    })) {
      now = hours 9000;
      files = ("abcd", 1 ∷ 2 ∷ []) ∷ [];
      entries = (".upload-1", 0) ∷ ("ab", 0) ∷ (".upload-2", hours 8999) ∷ [];
    }

cleanup_retention-kept_example : kept (cleanup_retention aged).1 ≡ kept aged
cleanup_retention-kept_example = cleanup_retention-kept aged

cleaned :
    ((cleanup_retention aged).1.entries ≡ ("ab", 0) ∷ (".upload-2", hours 8999) ∷ [])
    × ((cleanup_retention aged).1.db.idempotency_keys ≡ [])
unfolding cleanup_retention cleanup_expired_sessions statement has_prefix
cleaned = (refl, refl)
