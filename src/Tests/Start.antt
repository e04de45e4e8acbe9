-- ===== src/Tests/Start.antt =====
-- The start of the program at concrete inputs: the migration of tables, the administrators and
-- numbers in decimal.
use verstak_sync_server.Prelude.{
  ◌≡◌, refl, ◌+◌, ◌≤◌, ◌<◌, String, Bool, true, false, none, some, [], ◌∷◌, ℤ, pos, ◌==◌,
  if◌then◌else◌, All, length, arith, trim_space,
}
use verstak_sync_server.Schema.Migrate.{migrate_server_schema}
use verstak_sync_server.Schema.Old.{OldDb, by_token, unscoped, global, ensure_column}
use verstak_sync_server.Schema.Twice.{migrate_server_schema_twice}
use verstak_sync_server.Schema.Scope.{IsInScope, migrate_server_schema-scope}
use verstak_sync_server.Config.{Config, default_config}
use verstak_sync_server.Config.Normalize.{normalize, set_admin, check_admin}
use verstak_sync_server.Config.Start.{
  Flags, has_admin, start, go_on, initial_admin_password, bootstrap_admin_from_env,
}
use verstak_sync_server.Config.Admins.{set_admin-check_admin, start-has_admin}
use verstak_sync_server.Rate.Digits.{
  digits, strconv_itoa, strconv_itoa_lem, read_digits, array_length,
}
use verstak_sync_server.Tests.Fixtures.{plain_host, log_row}
use verstak_sync_server.Tests.Access.{device}

-- Tables without users and vaults: two operations, of which the second has lost its device.
abbrev old_db : OldDb
old_db = record {
  devices = record { columns = "id" ∷ "vault_id" ∷ []; rows = device "dev_2" "#two" ∷ [] };
  user_devices = record { user_id = "u1"; device_id = "dev_2" } ∷ [];
  ops = record {
    columns = "op_id" ∷ [];
    rows = log_row "x" 1 "dev_2" ∷ log_row "y" 2 "dev_9" ∷ [];
  };
  email_tokens = by_token (
      record { token = "t"; user_id = "u1"; purpose = "reset"; expires_at = 9; created_at = 1 }
      ∷ []);
  tombstones =
      unscoped
        (record { entity_type = "note"; entity_id = "n1"; op_id = "x"; deleted_at = 3 } ∷ []);
  idempotency_keys = global 4;
  user_version = 0;
}

abbrev never : String → Bool
never s = false

abbrev new_db : OldDb
new_db = elim (migrate_server_schema plain_host never old_db) [ none ↦ old_db | some db ↦ db ]

migrated_once : migrate_server_schema plain_host never old_db ≡ some new_db
unfolding migrate_server_schema ensure_column
migrated_once = refl

migrate_server_schema_twice_example : migrate_server_schema plain_host never new_db ≡ some new_db
migrate_server_schema_twice_example =
    migrate_server_schema_twice plain_host never old_db new_db migrated_once

migrate_server_schema-scope_example : All (IsInScope new_db.devices.rows) new_db.ops.rows
migrate_server_schema-scope_example =
    migrate_server_schema-scope plain_host never old_db new_db refl refl migrated_once

abbrev with_root : Config
with_root = elim (set_admin plain_host "root" "one" default_config) [
  | none ↦ default_config
  | some c ↦ c
]

root_set : set_admin plain_host "root" "one" default_config ≡ some with_root
unfolding set_admin
root_set = refl

set_admin-check_admin_example :
    (hash : String) × (plain_host.bcrypt_hash "one" 10 ≡ some hash)
    × ((name given : String)
        → check_admin plain_host name given with_root ≡ (
            if "root" == name
            then plain_host.bcrypt_matches hash given
            else check_admin plain_host name given default_config))
set_admin-check_admin_example =
    set_admin-check_admin plain_host "root" "one" default_config with_root tt root_set

abbrev no_flags : Flags
no_flags = record {
  listen = "";
  port = pos 0;
  admin_user = "";
  admin_pass_file = "";
  admin_pass_stdin = false;
  init_admin = false;
  read_file = λ path. none;
  stdin = none;
}

abbrev loopback : ℤ → String
loopback port = "127.0.0.1:47732"

abbrev required : String → String
required name =
    if name == "VERSTAK_REQUIRE_ADMIN"
    then "1"
    else if name == "VERSTAK_BOOTSTRAP_ADMIN_PASSWORD"
    then "correct horse"
    else ""

abbrev started_config : Config
started_config = elim (start plain_host loopback required no_flags default_config) [
  | none ↦ default_config
  | some (c, on) ↦ c
]

started : start plain_host loopback required no_flags default_config ≡ some (started_config, true)
unfolding start go_on initial_admin_password bootstrap_admin_from_env set_admin normalize trim_space
started = refl

start-has_admin_example : has_admin started_config ≡ true
start-has_admin_example =
    start-has_admin plain_host loopback required no_flags default_config started_config refl started

strconv_itoa_lem_example :
    (read_digits 0 (strconv_itoa (pos 905)) ≡ 905)
    × (length (strconv_itoa (pos 905)) + 1 ≤ array_length)
    × (read_digits 0 (digits (array_length + 3) 905) ≡ 905)
    × (0 < 905 → digits (array_length + 3) 905 ≡ strconv_itoa (pos 905))
strconv_itoa_lem_example = strconv_itoa_lem 905 3 (omega arith)
