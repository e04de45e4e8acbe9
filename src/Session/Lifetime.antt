-- ===== src/Session/Lifetime.antt =====
-- A session from its creation to its end.
use verstak_sync_server.Prelude.{
  ℕ, suc, ◌+◌, ◌≡◌, refl, sym, ap, ◌∙◌, subst, String, true, false, not, ◌&&◌, Option, none, some,
  List, [], ◌∷◌, ◌++◌, ◌==◌, Bool-cases, Option-cases, inl, inr, if◌then◌else◌, find,
  find-append_none, any, ltb, arith, eq_refl,
}
use verstak_sync_server.Schema.{Db, SessionRow}
use verstak_sync_server.Server.World.{World, Host, stamp, instant}
use verstak_sync_server.Server.Reply.{internal_error}
use verstak_sync_server.Server.Action.{
  Exit, ok, halt, ◌>>=◌, pure, draw, stop_if, exec_unique, query, try_exec,
}
use verstak_sync_server.Server.Faults.{quiet}
use verstak_sync_server.Server.Success.{
  Succeeds, bind-Succeeds, stop_if-Succeeds, exec_unique-Succeeds,
}
use verstak_sync_server.Session.Store.{
  WebSession, has_hash, session_lifetime, create_session, load_session, is_session, is_expired,
  use_session, web_session, new_session, add_session, store_session,
}

-- What loadSession answers for a session with this row.
abbrev pub loaded : Host → String → String → String → String → ℕ → WebSession
loaded host scope subject_id token csrf now = record {
  scope = scope;
  subject_id = subject_id;
  csrf_hash = host.sha256_hex csrf;
  expires_at = instant (stamp (now + session_lifetime));
}

stored :
    (scope subject_id token csrf token' csrf' : String) (w w' : World)
    → Succeeds (store_session scope subject_id token csrf) w (token', csrf') w'
    → (token ≡ token')
      × (csrf ≡ csrf')
      × (any (has_hash (w.host.sha256_hex token)) w.db.sessions ≡ false)
      × (w'.db ≡ add_session (new_session w.host token csrf scope subject_id w.now) w.db)
stored scope subject_id token csrf token' csrf' w w' h =
    let clash = λ (db : Db). any (has_hash (w.host.sha256_hex token)) db.sessions in
    let add = add_session (new_session w.host token csrf scope subject_id w.now) in
    let (t, u, first, last) =
      bind-Succeeds (λ _. pure (token, csrf)) (token', csrf') w'
        (exec_unique clash internal_error add) w h in
    let (absent, at_u) = exec_unique-Succeeds clash internal_error add t w u first in
    let k : ◌≡◌ {A = Exit (String × String)} (ok (token, csrf)) (ok (token', csrf')) =
      ap (λ (p : Exit (String × String) × World). p.0) last in
    let end = ap (λ (p : Exit (String × String) × World). p.1.db) last in
    (ap first_text k, ap second_text k, absent, sym end ∙ ap (λ (x : World). x.db) at_u)
  where
    first_text : Exit (String × String) → String
    first_text (ok p) = p.0
    first_text (halt e) = ""

    second_text : Exit (String × String) → String
    second_text (ok p) = p.1
    second_text (halt e) = ""

create_session-Succeeds :
    (scope subject_id token csrf : String) (w w' : World)
    → Succeeds (create_session scope subject_id) w (token, csrf) w'
    → (any (has_hash (w.host.sha256_hex token)) w.db.sessions ≡ false)
      × (w'.db ≡ add_session (new_session w.host token csrf scope subject_id w.now) w.db)
unfolding create_session
create_session-Succeeds scope subject_id token csrf w w' h =
    let unknown = not (scope == "admin") && not (scope == "user") in
    let token' = w.draws w.drawn in
    let csrf' = w.draws (suc w.drawn) in
    let row' = new_session w.host token' csrf' scope subject_id w.now in
    let (t, u, first, rest) =
      bind-Succeeds (λ _. draw >>= λ a. draw >>= λ b. store_session scope subject_id a b)
        (token, csrf) w' (stop_if unknown internal_error) w h in
    let at_u = (stop_if-Succeeds unknown internal_error w u t first).1 in
    let rest' =
      subst
        (λ (x : World).
          Succeeds (draw >>= λ a. draw >>= λ b. store_session scope subject_id a b) x (token, csrf)
            w')
        at_u rest in
    let x = record w { drawn = suc (suc w.drawn) } in
    let (same, other, absent, tables) =
      stored scope subject_id token' csrf' token csrf x w' rest' in
    (
      subst (λ t. any (has_hash (w.host.sha256_hex t)) w.db.sessions ≡ false) same absent,
      tables
          ∙ ap
              (λ (p : String × String).
                add_session (new_session w.host p.0 p.1 scope subject_id w.now) w.db)
              (λ i. (same i, other i)),
    )

find-absent :
    (h scope : String) (ss : List SessionRow)
    → any (has_hash h) ss ≡ false
    → find (is_session h scope) ss ≡ none
find-absent h scope [] e = refl
find-absent h scope (s ∷ ss) e = elim (Bool-cases (s.token_hash == h)) [
  | inl f ↦ let clash : true ≡ false = rw f at e in absurd (ground arith)
  | inr f ↦ rw f (find-absent h scope ss (rw f at e))
]

abbrev live_row : String → ℕ → Option SessionRow → Option WebSession
live_row h now none = none
live_row h now (some x) =
    if is_expired now x.expires_at
    then none
    else if not (x.token_hash == h)
    then none
    else some (web_session x)

use_session-calm :
    (h : String) (x : SessionRow) (v : World)
    → (use_session h x (quiet v)).0 ≡ ok (live_row h v.now (some x))
unfolding try_exec
use_session-calm h x v = elim (Bool-cases (is_expired v.now x.expires_at)) [
  | inl e ↦ rw e
  | inr e ↦ elim (Bool-cases (not (x.token_hash == h))) [ inl f ↦ rw (e, f) | inr f ↦ rw (e, f) ]
]

load_session-calm :
    (token asked : String) (v : World)
    → (token == "") ≡ false
    → (load_session token asked (quiet v)).0
      ≡ ok (
          live_row
            (v.host.sha256_hex token)
            v.now
            (find (is_session (v.host.sha256_hex token) asked) v.db.sessions))
unfolding load_session query
load_session-calm token asked v named =
    let h = v.host.sha256_hex token in
    elim (Option-cases (find (is_session h asked) v.db.sessions)) [
      | inl e ↦ rw (named, e)
      | inr (x, e) ↦ rw (named, e) (use_session-calm h x (record v { step = suc v.step }))
    ]

fresh_row :
    (s : SessionRow) (now : ℕ)
    → ltb now (instant s.expires_at) ≡ true
    → live_row s.token_hash now (some s) ≡ some (web_session s)
fresh_row s now f = rw (f, eq_refl s.token_hash)

old_row :
    (s : SessionRow) (now : ℕ)
    → ltb now (instant s.expires_at) ≡ false
    → live_row s.token_hash now (some s) ≡ none
old_row s now f = rw f

own_row :
    (host : Host) (token csrf scope subject_id asked : String) (made now : ℕ)
    → let s = new_session host token csrf scope subject_id made in
      live_row
        (host.sha256_hex token)
        now
        (find (is_session (host.sha256_hex token) asked) (s ∷ []))
      ≡ (if (scope == asked) && ltb now (instant (stamp (made + session_lifetime)))
          then some (loaded host scope subject_id token csrf made)
          else none)
own_row host token csrf scope subject_id asked made now = elim (Bool-cases (scope == asked)) [
  | inr e ↦ rw (e, eq_refl (host.sha256_hex token))
  | inl e ↦ elim (Bool-cases (ltb now (instant (stamp (made + session_lifetime))))) [
    | inl f ↦
        rw (e, f, eq_refl (host.sha256_hex token))
          (fresh_row (new_session host token csrf scope subject_id made) now f)
    | inr f ↦
        rw (e, f, eq_refl (host.sha256_hex token))
          (old_row (new_session host token csrf scope subject_id made) now f)
  ]
]

-- On a database that does not fail, the token of a session that createSession has just made is
-- good on the tables it left for the session's scope and for no other, and until its expiry,
-- 24 hours after the creation in whole seconds, and not from then on; the token is not empty.
pub create_session-load_session :
    (scope subject_id token csrf asked : String) (w w' later : World)
    → Succeeds (create_session scope subject_id) w (token, csrf) w'
    → (token == "") ≡ false
    → later.db ≡ w'.db
    → later.host ≡ w.host
    → (load_session token asked (quiet later)).0
      ≡ ok (
          if (scope == asked) && ltb later.now (instant (stamp (w.now + session_lifetime)))
          then some (loaded w.host scope subject_id token csrf w.now)
          else none)
create_session-load_session scope subject_id token csrf asked w w' later h named db host =
    let (absent, tables) = create_session-Succeeds scope subject_id token csrf w w' h in
    let s = new_session w.host token csrf scope subject_id w.now in
    let hash = w.host.sha256_hex token in
    let test = is_session hash asked in
    let rows : later.db.sessions ≡ w.db.sessions ++ s ∷ [] =
      ap (λ (d : Db). d.sessions) (db ∙ tables) in
    let row_found =
      find-append_none test w.db.sessions (s ∷ []) (find-absent hash asked w.db.sessions absent) in
    load_session-calm token asked later named
    ∙ ap
        (λ (g : Host). ok (
          live_row (g.sha256_hex token) later.now
            (find (is_session (g.sha256_hex token) asked) later.db.sessions)))
        host
    ∙ ap (λ (l : List SessionRow). ok (live_row hash later.now (find test l))) rows
    ∙ ap (λ (o : Option SessionRow). ok (live_row hash later.now o)) row_found
    ∙ ap (λ (o : Option WebSession). ok o)
        (own_row w.host token csrf scope subject_id asked w.now later.now)
