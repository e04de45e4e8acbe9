-- ===== src/Admin/Listings.antt =====
-- internal/server/handlers_admin.go and web_admin.go: the listings of the administrator's API. The
-- value of an action is what its handler encodes.
use verstak_sync_server.Prelude.{
  ℕ, String, Bool, false, not, Option, none, some, List, [], ◌∷◌, map, ◌==◌, ◌||◌, if◌then◌else◌, ℤ,
}
use verstak_sync_server.Schema.{Db, DeviceRow}
use verstak_sync_server.Server.Reply.{json_err, method_not_allowed}
use verstak_sync_server.Server.Request.{Request}
use verstak_sync_server.Server.Action.{M, ◌>>=◌, ◌>>◌, pure, gets, stop_if, or_stop, query_all}
use verstak_sync_server.Session.Store.{require_session}
use verstak_sync_server.Session.Csrf.{require_admin_mutation}
use verstak_sync_server.Device.Auth.{text_or_empty}
use verstak_sync_server.Device.Credentials.{concat}
use verstak_sync_server.Health.{HealthStatus, ServerStats, Disk, health_status, stats}
use verstak_sync_server.Admin.Views.{Sqlite, owner_name}

pub record ApiDevice : Type 0 where
  pub id : String
  pub name : String
  pub client_version : String
  pub last_seen : Option ℕ
  pub revoked_at : Option ℕ
  pub created_at : Option ℕ
  pub user : String

-- Scan gives up at a version that is NULL, and its error is not looked at: what comes after the
-- name stays empty.
abbrev pub api_device : Db → DeviceRow → ApiDevice
api_device db d = elim d.client_version [
  | none ↦ record {
    id = d.id;
    name = d.name;
    client_version = "";
    last_seen = none;
    revoked_at = none;
    created_at = none;
    user = "";
  }
  | some version ↦ record {
    id = d.id;
    name = d.name;
    client_version = version;
    last_seen = d.last_seen;
    revoked_at = d.revoked_at;
    created_at = some d.created_at;
    user = text_or_empty (owner_name db d);
  }
]

-- handleAdminAPIDevices
unfoldable pub handle_admin_api_devices : Sqlite → Request → M (List ApiDevice)
unfolding require_session
handle_admin_api_devices sql r = do
  stop_if (not (r.method == "GET")) method_not_allowed
  session ← require_session r "admin"
  query_all (λ db. map (api_device db) (sql.order_devices "created" db.devices))

pub record ApiKey : Type 0 where
  pub id : String
  pub name : String
  pub token_hint : String

abbrev pub api_key_of : DeviceRow → ApiKey
api_key_of d = record {
  id = d.id;
  name = d.name;
  token_hint = concat (text_or_empty d.token_prefix) (concat "…" (text_or_empty d.token_suffix));
}

-- handleAdminAPIKeys; `oldest_first` is ORDER BY created_at.
unfoldable pub handle_admin_api_keys : (List DeviceRow → List DeviceRow) → Request → M (List ApiKey)
unfolding require_session
handle_admin_api_keys oldest_first r = do
  session ← require_session r "admin"
  stop_if (not (r.method == "GET")) (json_err 405)
  query_all (λ db. map api_key_of (oldest_first db.devices))

pub record SmtpTest : Type 0 where
  pub smtp_host : String
  pub smtp_port : String
  pub smtp_user : String
  pub smtp_pass : String
  pub smtp_security : String
  pub smtp_from : String
  pub test_to : String

-- handleAdminSMTPTest, whose answer says `ok` or not; none is a body that is not JSON.
unfoldable pub handle_admin_smtp_test : Request → Option SmtpTest → M Bool
unfolding require_admin_mutation
handle_admin_smtp_test r body = do
  stop_if (not (r.method == "POST")) method_not_allowed
  require_admin_mutation r
  req ← or_stop body (json_err 400)
  host ← gets (λ w. w.host)
  let to = if req.test_to == "" then req.smtp_from else req.test_to
  if (req.smtp_host == "") || (req.smtp_port == "") || (req.smtp_from == "")
      then pure false
      else pure (
          host.mail_sent (
            req.smtp_host ∷ req.smtp_port ∷ req.smtp_user ∷ req.smtp_pass ∷ req.smtp_security
            ∷ req.smtp_from ∷ to ∷ []))

pub record Diagnostics : Type 0 where
  pub health : HealthStatus
  pub stats : ServerStats
  pub max_json_body : ℤ
  pub max_push_operations : ℤ
  pub max_pull_page : ℤ
  pub max_blob_bytes : ℤ
  pub default_locale : String
  pub registration_allowed : Bool

-- handleAdminDiagnosticsJSON
unfoldable pub handle_admin_diagnostics_json :
    (String → Bool) → Disk → ℕ → Bool → Request → M Diagnostics
unfolding require_session stats health_status
handle_admin_diagnostics_json is_recent disk version writable r = do
  stop_if (not (r.method == "GET")) method_not_allowed
  session ← require_session r "admin"
  counters ← stats is_recent disk
  health ← health_status version writable
  cfg ← gets (λ w. w.cfg)
  pure (record {
    health = health;
    stats = counters;
    max_json_body = cfg.limits.max_json_body;
    max_push_operations = cfg.limits.max_push_operations;
    max_pull_page = cfg.limits.max_pull_page;
    max_blob_bytes = cfg.limits.max_blob_bytes;
    default_locale = cfg.web.default_locale;
    registration_allowed = cfg.web.allow_registration;
  })
