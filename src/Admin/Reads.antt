-- ===== src/Admin/Reads.antt =====
-- internal/server/web_admin.go and handlers_admin.go: the statistics and the pages of the
-- administrator. The value of an action is what its handler shows or encodes.
use verstak_sync_server.Prelude.{
  ℕ, String, Option, Bool, not, List, [], ◌∷◌, ◌==◌, ◌||◌, if◌then◌else◌, ltb, any, trim_prefix,
}
use verstak_sync_server.Server.Reply.{method_not_allowed}
use verstak_sync_server.Server.Request.{Request, value_of}
use verstak_sync_server.Server.Action.{M, ◌>>=◌, ◌>>◌, pure, stop_if, answering}
use verstak_sync_server.Locale.{web_error}
use verstak_sync_server.Session.Store.{require_session}
use verstak_sync_server.Rate.Forms.{smtp_get}
use verstak_sync_server.Health.{HealthStatus, ServerStats, Disk, health_status, stats}
use verstak_sync_server.Admin.Lists.{WebList, web_list_from_request}
use verstak_sync_server.Home.{not_found}
use verstak_sync_server.Admin.Views.{
  Sqlite, WebAdminUser, WebAdminDevice, web_admin_users, web_admin_devices,
}
use verstak_sync_server.Admin.Trail.{WebAudit, web_audit}
use verstak_sync_server.Admin.Vaults.{WebVault, web_vaults}

-- handleAdminStats
unfoldable pub handle_admin_stats : (String → Bool) → Disk → Request → M ServerStats
unfolding require_session stats
handle_admin_stats is_recent disk r = do
  stop_if (not (r.method == "GET")) method_not_allowed
  session ← require_session r "admin"
  stats is_recent disk

pub record WebSmtp : Type 0 where
  pub host : String
  pub port : String
  pub user : String
  pub security : String
  pub from : String
  pub server_url : String

-- webSMTP
abbrev pub web_smtp : M WebSmtp
web_smtp = do
  host ← smtp_get "smtp_host"
  port ← smtp_get "smtp_port"
  user ← smtp_get "smtp_user"
  security ← smtp_get "smtp_security"
  from ← smtp_get "smtp_from"
  url ← smtp_get "server_url"
  pure (record {
    host = host;
    port = port;
    user = user;
    security = security;
    from = from;
    server_url = url;
  })

-- What the switch of handleAdminWeb adds to the statistics, page by page.
pub data PageData : Type 0 where
  on_dashboard : List WebAudit → List WebAdminDevice → List String → PageData
  on_users : List WebAdminUser × WebList → PageData
  on_devices : List WebAdminDevice × WebList → PageData
  on_vaults : List WebVault → PageData
  on_audit : List WebAudit × WebList → PageData
  on_settings : WebSmtp → String → PageData
  on_storage : String → PageData
  on_diagnostics : PageData

-- webList{Page: 1, PerPage: 5}
abbrev pub first_five : WebList
first_five = record {
  query = "";
  status = "";
  sort = "";
  user = "";
  vault = "";
  version = "";
  event = "";
  severity = "";
  page = 1;
  per_page = 5;
  total = 0;
  pages = 0;
  previous = 0;
  next = 0;
}

abbrev pub readiness : HealthStatus → List String → List String
readiness health rest =
    if not health.database_reachable || not health.blob_storage_writable
    then "admin.warningReadiness" ∷ rest
    else rest

abbrev pub warnings : HealthStatus → String → ServerStats → List String
warnings health smtp_host counters =
    let many = if ltb 100000 counters.operations then "admin.warningOperations" ∷ [] else [] in
    readiness health (if smtp_host == "" then "admin.warningSMTP" ∷ many else many)

abbrev pub settings_flash : String → String
settings_flash flash =
    if flash == "settings_saved"
    then "admin.settingsSaved"
    else if flash == "smtp_saved"
    then "admin.smtpSaved"
    else if flash == "smtp_test_passed"
    then "admin.smtpPassed"
    else if flash == "smtp_test_failed"
    then "admin.smtpTestFailed"
    else ""

abbrev pub dashboard_data : Sqlite → HealthStatus → ServerStats → M PageData
unfolding web_audit web_admin_devices smtp_get
dashboard_data sql health counters = do
  events ← web_audit sql first_five
  devices ← web_admin_devices sql first_five
  smtp_host ← smtp_get "smtp_host"
  pure (on_dashboard events.0 devices.0 (warnings health smtp_host counters))

abbrev pub settings_data : Request → M PageData
settings_data r = do
  smtp ← web_smtp
  pure (on_settings smtp (settings_flash (value_of "flash" r.params)))

-- The switch; `l` is webListFromRequest(r).
abbrev pub page_data :
    Sqlite
    → (List WebVault → List WebVault)
    → Request
    → WebList
    → HealthStatus
    → ServerStats
    → String
    → M PageData
unfolding web_audit web_admin_devices web_admin_users web_vaults
page_data sql order r l health counters page =
    if page == "dashboard"
    then dashboard_data sql health counters
    else if page == "users"
    then web_admin_users sql l >>= (λ found. pure (on_users found))
    else if page == "devices"
    then web_admin_devices sql l >>= (λ found. pure (on_devices found))
    else if page == "vaults"
    then web_vaults order >>= (λ found. pure (on_vaults found))
    else if page == "audit"
    then web_audit sql l >>= (λ found. pure (on_audit found))
    else if page == "settings"
    then settings_data r
    else if page == "storage"
    then pure (
        on_storage
          (if value_of "flash" r.params == "cleanup_done" then "admin.cleanupDone" else ""))
    else pure on_diagnostics

abbrev pub page_name : Request → String
page_name r =
    let page = trim_prefix r.path "/admin/" in
    if (page == "") || (page == "admin") then "dashboard" else page

abbrev pub admin_pages : List String
admin_pages =
    "dashboard" ∷ "users" ∷ "devices" ∷ "vaults" ∷ "storage" ∷ "audit" ∷ "settings" ∷ "diagnostics"
    ∷ []

-- handleAdminWeb; `first_bytes` and `atoi` are those of webListFromRequest.
unfoldable pub handle_admin_web :
    Sqlite
    → (List WebVault → List WebVault)
    → (String → Bool)
    → Disk
    → ℕ
    → Bool
    → (ℕ → String → String)
    → (String → Option ℕ)
    → Request
    → M (ServerStats × (HealthStatus × PageData))
unfolding require_session stats health_status trim_prefix web_list_from_request
handle_admin_web sql order is_recent disk version writable first_bytes atoi r = do
  stop_if (not (r.method == "GET")) method_not_allowed
  session ← require_session r "admin"
  stop_if (not (any (λ p. p == page_name r) admin_pages)) (not_found r)
  counters ← answering (λ failed. web_error 500 "error.internal") (stats is_recent disk)
  health ← health_status version writable
  shown ←
      answering (λ failed. web_error 500 "error.internal")
        (page_data sql order r (web_list_from_request first_bytes atoi r) health counters
          (page_name r))
  pure (counters, (health, shown))
