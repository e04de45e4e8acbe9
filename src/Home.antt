-- ===== src/Home.antt =====
-- internal/server/web_render.go and handlers_api.go: the first page, the choice of a language, and
-- the answers on health. The cookie with the language is a header, and left out.
use verstak_sync_server.Prelude.{String, not, ◌==◌, ◌||◌, if◌then◌else◌, has_prefix, ℕ, Bool}
use verstak_sync_server.Server.Reply.{
  Reply, json_ok, json_err, status_is, method_not_allowed, redirect, page,
}
use verstak_sync_server.Server.Request.{Request, value_of}
use verstak_sync_server.Server.Action.{M, ◌>>=◌, ◌>>◌, pure, gets, stop_if}
use verstak_sync_server.Locale.{web_error, page_status, verify_web_locale_csrf}
use verstak_sync_server.Health.{HealthStatus, health_status}

-- handleNotFound
abbrev pub not_found : Request → Reply
not_found r =
    if not (has_prefix r.path "/api/") then web_error 404 "error.notFound" else json_err 404

-- handleHealth, with the status of the answer.
unfoldable pub handle_health : ℕ → Bool → Request → M (ℕ × HealthStatus)
unfolding health_status
handle_health version writable r = do
  stop_if (not (r.method == "GET")) method_not_allowed
  health ← health_status version writable
  pure (if not (health.status == "ok") then 503 else 200, health)

-- handleLiveness
unfoldable pub handle_liveness : Request → M Reply
handle_liveness r = do
  stop_if (not (r.method == "GET")) method_not_allowed
  pure (json_ok (status_is "ok"))

-- handleHome
unfoldable pub handle_home : ℕ → Bool → Request → M Reply
unfolding health_status
handle_home version writable r = do
  stop_if (not (r.path == "/")) (not_found r)
  stop_if (not (r.method == "GET")) method_not_allowed
  health ← health_status version writable
  stop_if (not (health.status == "ok")) (page_status "unavailable" "home.unavailableMessage" 503)
  pure (json_ok (page "home" health.status))

-- Where the browser goes back to: a path of this server.
abbrev pub back_to : String → String
back_to from = if not (has_prefix from "/") || has_prefix from "//" then "/" else from

-- handleLocale
unfoldable pub handle_locale : Request → M Reply
unfolding verify_web_locale_csrf
handle_locale r = do
  stop_if (not (r.method == "POST")) method_not_allowed
  stop_if (not r.form_valid) (json_ok (page "error" "error.tryAgain"))
  host ← gets (λ w. w.host)
  cfg ← gets (λ w. w.cfg)
  stop_if (not (verify_web_locale_csrf host cfg r)) (web_error 403 "error.tryAgain")
  pure (redirect 303 (back_to (value_of "from" r.form)))
