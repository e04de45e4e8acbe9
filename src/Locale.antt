-- ===== src/Locale.antt =====
-- internal/server/web_locale.go: the language of a page, and the guard of the forms that need no
-- session.
use verstak_sync_server.Prelude.{
  ℕ, String, Bool, not, none, some, List, [], ◌∷◌, ◌==◌, ◌&&◌, ◌||◌, if◌then◌else◌, trim_space,
  has_prefix, split,
}
use verstak_sync_server.Config.{Config}
use verstak_sync_server.Server.World.{Host}
use verstak_sync_server.Server.Reply.{Reply, page}
use verstak_sync_server.Server.Request.{Request, value_of, lookup}
use verstak_sync_server.Server.Action.{M, ◌>>=◌, gets, stop_if}
use verstak_sync_server.Session.Csrf.{same_origin}

-- isSupportedWebLocale
abbrev pub is_supported_web_locale : String → Bool
is_supported_web_locale locale = (locale == "en") || (locale == "ru")

abbrev first_part : List String → String
first_part [] = ""
first_part (p ∷ ps) = p

-- The language of one entry: what comes before its first `;`.
abbrev language : Host → String → String
language host part = host.to_lower (trim_space (first_part (split 59 part)))

abbrev pick : Host → List String → String
pick host [] = ""
pick host (part ∷ parts) =
    let rest = pick host parts in
    let lang = language host part in
    if (lang == "ru") || has_prefix lang "ru-"
    then "ru"
    else if (lang == "en") || has_prefix lang "en-"
    then "en"
    else rest

-- localeFromAcceptLanguage
unfoldable pub locale_from_accept_language : Host → String → String
locale_from_accept_language host header = pick host (split 44 header)

abbrev pub configured_locale : Config → String
configured_locale cfg =
    if is_supported_web_locale cfg.web.default_locale then cfg.web.default_locale else "en"

abbrev pub accepted_locale : Host → Config → Request → String
accepted_locale host cfg r =
    if locale_from_accept_language host r.accept_language == ""
    then configured_locale cfg
    else locale_from_accept_language host r.accept_language

-- resolveWebLocale
unfoldable pub resolve_web_locale : Host → Config → Request → String
unfolding locale_from_accept_language
resolve_web_locale host cfg r = elim (lookup "verstak_locale" r.cookies) [
  | none ↦ accepted_locale host cfg r
  | some v ↦
      if (v == "ru") || (v == "en")
      then v
      else if v == "system"
      then accepted_locale host cfg r
      else configured_locale cfg
]

-- renderWebError
abbrev pub web_error : ℕ → String → Reply
web_error status message = record { status = status; code = ""; body = page "error" message }

-- renderPageStatus, and renderPage with status 200: the template and its flash, or its token.
abbrev pub page_status : String → String → ℕ → Reply
page_status name flash status = record { status = status; code = ""; body = page name flash }

-- verifyWebLocaleCSRF
unfoldable pub verify_web_locale_csrf : Host → Config → Request → Bool
unfolding same_origin
verify_web_locale_csrf host cfg r =
    let cookie = value_of "verstak_locale_csrf" r.cookies in
    let candidate = value_of "locale_csrf" r.form in
    not (cookie == "") && same_origin host cfg r && not (candidate == "") && (cookie == candidate)

-- requirePublicWebMutation
unfoldable pub require_public_web_mutation : Request → M (Unit {0})
unfolding verify_web_locale_csrf
require_public_web_mutation r = do
  host ← gets (λ w. w.host)
  cfg ← gets (λ w. w.cfg)
  stop_if (not (verify_web_locale_csrf host cfg r)) (web_error 403 "error.tryAgain")
