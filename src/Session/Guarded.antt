-- ===== src/Session/Guarded.antt =====
-- What an administrator's request has shown before it may change anything.
use verstak_sync_server.Prelude.{◌≡◌, refl, sym, ap, ◌∙◌, subst, String, true, Option, some}
use verstak_sync_server.Config.{Config}
use verstak_sync_server.Server.World.{World, Host}
use verstak_sync_server.Server.Reply.{redirect}
use verstak_sync_server.Server.Request.{Request, lookup, value_of}
use verstak_sync_server.Server.Action.{Exit, ◌>>=◌, or_stop}
use verstak_sync_server.Server.Success.{Succeeds, bind-Succeeds, or_stop-Succeeds}
use verstak_sync_server.Session.Store.{
  WebSession, load_session, require_session, cookie_of, login_of,
}
use verstak_sync_server.Session.Frame.{load_session-Keeps}
use verstak_sync_server.Session.Csrf.{same_origin, verify_csrf, require_admin_mutation}
use verstak_sync_server.Session.Safety.{IsLive, IsSent, load_session-Succeeds, verify_csrf-Succeeds}

-- The libraries and the settings.
abbrev pub settings : World → Host × Config
settings w = (w.host, w.cfg)

-- What a request has shown with a session of this scope.
abbrev pub HasShown : Request → String → World → WebSession → Type 0
HasShown r scope w s =
    (token : String) × (lookup (cookie_of scope) r.cookies ≡ some token)
    × IsLive w token scope s
    × IsSent r (value_of "csrf_token" r.cookies)
    × (w.host.sha256_hex (value_of "csrf_token" r.cookies) ≡ s.csrf_hash)
    × (same_origin w.host w.cfg r ≡ true)

-- A request that requireSession lets through carries the cookie of a session that is alive, and
-- the settings stay as they are.
pub require_session-IsLive :
    (r : Request) (scope : String) (s : WebSession) (w u : World)
    → Succeeds (require_session r scope) w s u
    → (token : String) × (lookup (cookie_of scope) r.cookies ≡ some token)
      × IsLive w token scope s
      × (settings u ≡ settings w)
unfolding require_session
require_session-IsLive r scope s w u session =
    let login = redirect 302 (login_of scope) in
    let cookie = lookup (cookie_of scope) r.cookies in
    let (token, v, sending, loading) =
      bind-Succeeds (λ token. load_session token scope >>= λ found. or_stop found login) s u
        (or_stop cookie login) w session in
    let (sent, at_v) = or_stop-Succeeds cookie login w v token sending in
    let (found, x, loaded, rest) =
      bind-Succeeds (λ found. or_stop found login) s u (load_session token scope) v loading in
    let (is_there, at_u) = or_stop-Succeeds found login x u s rest in
    let live =
      load_session-Succeeds token scope v x s
        (subst (λ o. Succeeds (load_session token scope) v o x) is_there loaded) in
    let same =
      ap settings at_u
      ∙ sym (ap (λ (p : Exit (Option WebSession) × World). settings p.1) loaded)
      ∙ load_session-Keeps settings (λ _. refl) (λ _ _. refl) token scope v
      ∙ ap settings at_v in
    (token, sent, subst (λ (y : World). IsLive y token scope s) at_v live, same)

-- The two guards, one after the other, for either scope.
pub guards-HasShown :
    (r : Request) (scope : String) (s : WebSession) (w u w' : World)
    → Succeeds (require_session r scope) w s u
    → Succeeds (verify_csrf r s) u tt w'
    → HasShown r scope w s
guards-HasShown r scope s w u w' session guard =
    let (token, sent, live, same) = require_session-IsLive r scope s w u session in
    let (again, hashed, origin) =
      subst
        (λ (p : Host × Config).
          IsSent r (value_of "csrf_token" r.cookies)
          × (p.0.sha256_hex (value_of "csrf_token" r.cookies) ≡ s.csrf_hash)
          × (same_origin p.0 p.1 r ≡ true))
        same (verify_csrf-Succeeds r s u w' guard) in
    (token, sent, live, again, hashed, origin)

-- A request that requireAdminMutation lets through carries the cookie of an administrator's
-- session on record that has not expired, and a CSRF cookie whose hash that session keeps; its
-- header or its form sends the value of that cookie once more, which is not empty; and its origin
-- is the server's own, or it names none.
pub require_admin_mutation-Succeeds :
    (r : Request) (w w' : World)
    → Succeeds (require_admin_mutation r) w tt w'
    → (token : String) × (s : WebSession) × (lookup "admin_session" r.cookies ≡ some token)
      × IsLive w token "admin" s
      × IsSent r (value_of "csrf_token" r.cookies)
      × (w.host.sha256_hex (value_of "csrf_token" r.cookies) ≡ s.csrf_hash)
      × (same_origin w.host w.cfg r ≡ true)
unfolding require_admin_mutation
require_admin_mutation-Succeeds r w w' h =
    let (s, u, session, guard) =
      bind-Succeeds (verify_csrf r) tt w' (require_session r "admin") w h in
    let (token, sent, live, again, hashed, origin) =
      guards-HasShown r "admin" s w u w' session guard in
    (token, s, sent, live, again, hashed, origin)
