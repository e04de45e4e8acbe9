-- ===== src/Tests/Fixtures.antt =====
-- A small server: one user with two devices on a vault, a third device on another vault.
use verstak_sync_server.Prelude.{ℕ, String, true, false, none, some, [], ◌∷◌, pos, ◌==◌, ◌*◌}
use Prim.Native.String.{◌++◌}
use verstak_sync_server.Schema.{Db, OpRow, empty_db}
use verstak_sync_server.Config.{default_config}
use verstak_sync_server.Server.World.{World, Host, second}
use verstak_sync_server.Device.Auth.{AuthenticatedDevice}
use verstak_sync_server.Sync.Contract.{PushOperation, PushRequest}

-- The libraries, replaced by functions that are simple to follow.
abbrev pub plain_host : Host
plain_host = record {
  sha256_hex = λ s. "#" ++ s;
  to_lower = λ s. s;
  equal_fold = λ s t. s == t;
  parse_url = λ s. some ("https", s);
  parse_request_uri = λ s. some ("https", s);
  bcrypt_hash = λ p n. some ("$" ++ p);
  bcrypt_matches = λ h p. h == ("$" ++ p);
  json_valid = λ s. true;
  file_payload = λ s. some (record { data_base64 = none; blob = none });
  marshal_push = λ r. "response";
  parse_address = λ s. some s;
  parse_addr = λ s. some s;
  parse_prefix = λ s. some s;
  addr_is6 = λ s. false;
  prefix_from = λ s n. s;
  prefix_masked = λ s. s;
  prefix_contains = λ p a. p == a;
  mail_sent = λ args. true;
}

abbrev pub laptop : AuthenticatedDevice
laptop = record { device_id = "dev_1"; user_id = "u1"; vault_id = "v1" }

abbrev pub phone : AuthenticatedDevice
phone = record { device_id = "dev_2"; user_id = "u1"; vault_id = "v1" }

abbrev pub stranger : AuthenticatedDevice
stranger = record { device_id = "dev_3"; user_id = "u2"; vault_id = "v1" }

abbrev pub note : String → String → ℕ → PushOperation
note id op_type seen = record {
  op_id = id;
  entity_type = "note";
  entity_id = "n1";
  op_type = op_type;
  payload_json = "";
  client_sequence = pos 1;
  last_seen_server_seq = pos seen;
  created_at = "2026-01-01T00:00:00Z";
}

abbrev pub request : PushRequest
request = record {
  device_id = "dev_1";
  idempotency_key = "k1";
  ops = note "a" "update" 0 ∷ note "b" "delete" 0 ∷ note "a" "update" 0 ∷ [];
}

abbrev pub log_row : String → ℕ → String → OpRow
log_row id seq device = record {
  op_id = id;
  server_sequence = some seq;
  user_id = "u1";
  vault_id = "v1";
  device_id = device;
  entity_type = "note";
  entity_id = "n1";
  op_type = "update";
  payload_json = "";
  idempotency_key = "";
  client_sequence = pos 1;
  last_seen_server_seq = pos 0;
  created_at = "2026-01-01T00:00:00Z";
  pushed_at = 0;
}

abbrev pub log_db : Db
log_db = record empty_db {
  ops = log_row "x" 1 "dev_2" ∷ log_row "y" 3 "dev_2" ∷ [];
  last_revision = 3;
}

abbrev pub world_of : Db → World
world_of db = record {
  host = plain_host;
  cfg = default_config;
  db = db;
  now = 100 * second;
  faults = λ n. false;
  step = 0;
  draws = λ n. "secret";
  drawn = 0;
  buckets = [];
  web_secrets = [];
  files = [];
  entries = [];
}

abbrev pub world : World
world = world_of log_db
