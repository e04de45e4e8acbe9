-- ===== src/Admin/SettingsForm.antt =====
-- internal/server/web_admin.go: what the forms of the administrator share, and the form of the
-- settings.
use verstak_sync_server.Prelude.{
  suc, String, Bool, true, not, none, some, ◌==◌, ◌&&◌, ◌||◌, if◌then◌else◌, trim_space,
  trim_right_of,
}
use verstak_sync_server.Config.{Config}
use verstak_sync_server.Config.Normalize.{check_admin}
use verstak_sync_server.Server.World.{Host, World}
use verstak_sync_server.Server.Reply.{Reply, internal_error, redirect}
use verstak_sync_server.Server.Request.{Request, value_of}
use verstak_sync_server.Server.Action.{M, ok, halt, ◌>>=◌, ◌>>◌, pure, gets, stop_if}
use verstak_sync_server.Audit.{audit_log}
use verstak_sync_server.Proxy.{client_ip}
use verstak_sync_server.Locale.{web_error}

-- s.auditLog(event, user, device, s.clientIP(r), message)
abbrev pub report : Request → String → String → String → String → M (Unit {0})
report r event user device message = do
  host ← gets (λ w. w.host)
  cfg ← gets (λ w. w.cfg)
  audit_log event user device (client_ip host cfg r) message

-- adminReauth, and the page for a password that is wrong.
abbrev pub reauth : Request → String → M (Unit {0})
reauth r subject = do
  host ← gets (λ w. w.host)
  cfg ← gets (λ w. w.cfg)
  stop_if (not (check_admin host subject (value_of "password" r.form) cfg))
      (web_error 403 "error.invalidCredentials")

abbrev pub is_bad_url : Host → String → Bool
is_bad_url host url = elim (host.parse_request_uri url) [
  | none ↦ true
  | some (scheme, name) ↦
      (scheme == "") || (name == "") || (not (scheme == "http") && not (scheme == "https"))
]

-- The new settings, in memory even where saveLocked cannot write the file.
unfoldable pub save_settings : (Config → Config) → M (Unit {0})
save_settings f w =
    let after : World = record w { step = suc w.step; cfg = f w.cfg } in
    (if w.faults w.step then halt internal_error else ok tt, after)

abbrev pub with_settings : Request → String → Config → Config
with_settings r url c = record c {
  web = record {
    default_locale =
        if (value_of "default_locale" r.form == "ru") || (value_of "default_locale" r.form == "en")
        then value_of "default_locale" r.form
        else "en";
    allow_registration = value_of "allow_registration" r.form == "on";
    server_name = trim_space (value_of "server_name" r.form);
  };
  public_url = url;
}

abbrev pub web_settings : Request → M Reply
web_settings r = do
  host ← gets (λ w. w.host)
  let url = trim_right_of 47 (trim_space (value_of "public_url" r.form))
  stop_if (not (url == "") && is_bad_url host url) (web_error 400 "error.invalidPublicURL")
  save_settings (with_settings r url)
  report r "web_settings_updated" "" "" "updated by administrator"
  pure (redirect 303 "/admin/settings?flash=settings_saved")
