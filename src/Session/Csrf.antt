-- ===== src/Session/Csrf.antt =====
-- internal/server/csrf.go: a request that changes something must come from the server's own pages.
use verstak_sync_server.Prelude.{
  String, Bool, true, false, not, none, some, ◌==◌, ◌&&◌, ◌||◌, if◌then◌else◌, trim_space,
  has_prefix,
}
use verstak_sync_server.Config.{Config}
use verstak_sync_server.Server.World.{Host}
use verstak_sync_server.Server.Reply.{json_err_code}
use verstak_sync_server.Server.Request.{Request, value_of}
use verstak_sync_server.Server.Action.{M, ◌>>=◌, ◌>>◌, pure, stop, gets, stop_if}
use verstak_sync_server.Proxy.{request_is_https}
use verstak_sync_server.Session.Store.{WebSession, require_session}

-- Do the origin's scheme and host match, whatever their case?
abbrev pub is_origin : Host → String × String → String → String → Bool
is_origin host origin scheme name = host.equal_fold origin.0 scheme && host.equal_fold origin.1 name

abbrev pub is_public : Host → String → String × String → Bool
is_public host public_url origin = elim (host.parse_url public_url) [
  | none ↦ false
  | some url ↦ is_origin host origin url.0 url.1
]

abbrev pub expected_origin : Host → Config → Request → String × String → Bool
expected_origin host cfg r origin =
    if not (trim_space cfg.public_url == "")
    then is_public host (trim_space cfg.public_url) origin
    else is_origin host origin (if request_is_https host cfg r then "https" else "http")
        r.request_host

-- sameOrigin
unfoldable pub same_origin : Host → Config → Request → Bool
same_origin host cfg r =
    if trim_space r.origin == "" then true else elim (host.parse_url (trim_space r.origin)) [
      | none ↦ false
      | some origin ↦ not (origin.1 == "") && expected_origin host cfg r origin
    ]

abbrev pub is_form : Request → Bool
is_form r =
    has_prefix r.content_type "application/x-www-form-urlencoded"
    || has_prefix r.content_type "multipart/form-data"

-- The value that the page sends along, from the header or the form.
unfoldable pub csrf_candidate : Request → M String
csrf_candidate r =
    if not (r.csrf_header == "")
    then pure r.csrf_header
    else if is_form r
    then (if r.form_valid
        then pure (value_of "csrf_token" r.form)
        else stop (json_err_code 400 "invalid_request"))
    else pure ""

abbrev pub check_candidate : Request → WebSession → String → M (Unit {0})
check_candidate r session candidate = do
  host ← gets (λ w. w.host)
  cfg ← gets (λ w. w.cfg)
  stop_if
      ((candidate == "")
        || not (value_of "csrf_token" r.cookies == candidate)
        || not (host.sha256_hex candidate == session.csrf_hash))
      (json_err_code 403 "csrf_invalid")
  stop_if (not (same_origin host cfg r)) (json_err_code 403 "csrf_invalid")

-- verifyCSRF
unfoldable pub verify_csrf : Request → WebSession → M (Unit {0})
unfolding csrf_candidate same_origin
verify_csrf r session = do
  stop_if (value_of "csrf_token" r.cookies == "") (json_err_code 403 "csrf_invalid")
  candidate ← csrf_candidate r
  check_candidate r session candidate

-- requireAdminMutation
unfoldable pub require_admin_mutation : Request → M (Unit {0})
unfolding require_session verify_csrf
require_admin_mutation r = do session ← require_session r "admin"; verify_csrf r session

-- requireUserMutation
unfoldable pub require_user_mutation : Request → M (Unit {0})
unfolding require_session verify_csrf
require_user_mutation r = do session ← require_session r "user"; verify_csrf r session
