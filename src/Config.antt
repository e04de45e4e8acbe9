-- ===== src/Config.antt =====
-- internal/server/config.go: the settings of config.yml. A Go integer is a signed integer here,
-- since the file may hold anything.
pub mod Normalize
pub mod Positive
pub mod Start
pub mod Admins
use verstak_sync_server.Prelude.{ℕ, String, Bool, true, false, List, [], ℤ, pos, ◌*◌, ◌^◌}

pub record AdminUser : Type 0 where
  pub username : String
  pub password_hash : String

pub record WebConfig : Type 0 where
  pub default_locale : String
  pub allow_registration : Bool
  pub server_name : String

pub record Retention : Type 0 where
  pub idempotency_hours : ℤ
  pub audit_days : ℤ
  pub temp_upload_hours : ℤ

pub record Limits : Type 0 where
  pub max_json_body : ℤ
  pub max_push_operations : ℤ
  pub max_payload_json : ℤ
  pub max_pull_page : ℤ
  pub max_blob_bytes : ℤ
  pub max_vault_blob_bytes : ℤ
  pub max_user_blob_bytes : ℤ

-- Without the mutex and the file's path. An address is named by its canonical text, and so is a
-- prefix.
pub record Config : Type 0 where
  pub port : ℤ
  pub listen : String
  pub trusted_proxies : List String
  pub public_url : String
  pub development_token_logging : Bool
  pub web : WebConfig
  pub limits : Limits
  pub retention : Retention
  pub admin : List AdminUser
  pub trusted_proxy_prefixes : List String

abbrev pub default_limits : Limits
default_limits = record {
  max_json_body = pos (2 * 2 ^ 20);
  max_push_operations = pos 100;
  max_payload_json = pos (256 * 2 ^ 10);
  max_pull_page = pos 100;
  max_blob_bytes = pos (256 * 2 ^ 20);
  max_vault_blob_bytes = pos (4 * 2 ^ 30);
  max_user_blob_bytes = pos (8 * 2 ^ 30);
}

abbrev pub default_config : Config
default_config = record {
  port = pos 47732;
  listen = "127.0.0.1:47732";
  trusted_proxies = [];
  public_url = "";
  development_token_logging = false;
  web = record {
    default_locale = "en";
    allow_registration = true;
    server_name = "Verstak Sync Server";
  };
  limits = default_limits;
  retention = record {
    idempotency_hours = pos 24;
    audit_days = pos 90;
    temp_upload_hours = pos 24;
  };
  admin = [];
  trusted_proxy_prefixes = [];
}
