-- ===== src/Session/Safety.antt =====
-- What a request that gets past the guards has shown.
use verstak_sync_server.Prelude.{
  suc, ◌<◌, ◌≡◌, ◌≢◌, refl, sym, ap, ◌∙◌, subst, String, Bool, true, false, not, ◌||◌, Option, none,
  some, ◌==◌, Bool-cases, inl, inr, ◌⊎◌, find, ltb, ltb→lt, arith, eq_true, ne_of_false,
}
use verstak_sync_server.Schema.{Db, SessionRow}
use verstak_sync_server.Server.World.{World, stamp, instant}
use verstak_sync_server.Server.Reply.{json_err_code}
use verstak_sync_server.Server.Request.{Request, value_of}
use verstak_sync_server.Server.Action.{
  Exit, ok, halt, ◌>>=◌, pure, stop_if, query, Row, row, no_rows, broken, try_exec, to_row,
}
use verstak_sync_server.Server.Success.{
  Succeeds, bind-Succeeds, stop_if-Succeeds, query-Succeeds, to_row-some,
}
use verstak_sync_server.Session.Store.{
  WebSession, web_session, is_session, is_expired, use_session, load_session, forget_session,
  see_session, with_session,
}
use verstak_sync_server.Session.Csrf.{
  same_origin, csrf_candidate, verify_csrf, check_candidate, is_form,
}

pub or_false : (a b : Bool) → (a || b) ≡ false → (a ≡ false) × (b ≡ false)
or_false false b h = (refl, h)
or_false true b h = absurd (ground arith)

pub not-false : (a : Bool) → not a ≡ false → a ≡ true
not-false true h = refl
not-false false h = absurd (ground arith)

world_of {ℓ} :
    {A : Type ℓ} {e e' : Exit A} {w w' : World} → ◌≡◌ {A = Exit A × World} (e, w) (e', w') → w ≡ w'
world_of {A = A} h = ap (λ (p : Exit A × World). p.1) h

result_of {ℓ} :
    {A : Type ℓ} {e e' : Exit A} {w w' : World} → ◌≡◌ {A = Exit A × World} (e, w) (e', w') → e ≡ e'
result_of {A = A} h = ap (λ (p : Exit A × World). p.0) h

-- The page itself sends this value, in the header or, where there is none, in the form; it is not
-- empty. A browser sends neither by itself.
abbrev pub IsSent : Request → String → Type 0
IsSent r value =
    (value ≢ "")
    × ((r.csrf_header ≡ value)
        ⊎ ((r.csrf_header ≡ "") × (is_form r ≡ true) × (value_of "csrf_token" r.form ≡ value)))

csrf_candidate-IsSent :
    (r : Request) (w w' : World) (s : String)
    → Succeeds (csrf_candidate r) w s w'
    → (w' ≡ w) × ((s == "") ≡ false → IsSent r s)
unfolding csrf_candidate
csrf_candidate-IsSent r w w' s h = elim (Bool-cases (not (r.csrf_header == ""))) [
  | inl e ↦
      let k : ok r.csrf_header ≡ ok s = result_of (rw e at h) in
      (sym (world_of (rw e at h)), λ f. (ne_of_false s "" f, inl (ground arith)))
  | inr e ↦ elim (Bool-cases (is_form r)) [
    | inr f ↦
        let k : ok "" ≡ ok s = result_of (rw (e, f) at h) in
        let empty : "" ≡ s = ground arith in
        (sym (world_of (rw (e, f) at h)), λ g. absurd (ne_of_false s "" g (sym empty)))
    | inl f ↦ elim (Bool-cases r.form_valid) [
      | inl g ↦
          let k : ok (value_of "csrf_token" r.form) ≡ ok s = result_of (rw (e, f, g) at h) in
          let none_sent = eq_true r.csrf_header "" (not-false (r.csrf_header == "") e) in
          (
            sym (world_of (rw (e, f, g) at h)),
            λ n. (ne_of_false s "" n, inr (none_sent, f, ground arith)),
          )
      | inr g ↦
          let k : halt (json_err_code 400 "invalid_request") ≡ ok s =
            result_of (rw (e, f, g) at h) in
          absurd (ground arith)
    ]
  ]
]

checked :
    (r : Request) (session : WebSession) (candidate : String) (w w' : World)
    → Succeeds (check_candidate r session candidate) w tt w'
    → ((candidate == "") ≡ false)
      × (value_of "csrf_token" r.cookies ≡ candidate)
      × (w.host.sha256_hex (value_of "csrf_token" r.cookies) ≡ session.csrf_hash)
      × (same_origin w.host w.cfg r ≡ true)
checked r session candidate w w' h =
    let cookie = value_of "csrf_token" r.cookies in
    let refusal = json_err_code 403 "csrf_invalid" in
    let test =
      (candidate == "")
      || not (cookie == candidate)
      || not (w.host.sha256_hex candidate == session.csrf_hash) in
    let foreign = not (same_origin w.host w.cfg r) in
    let (t, u, first, rest) =
      bind-Succeeds (λ _. stop_if foreign refusal) tt w' (stop_if test refusal) w h in
    let (passed, at_u) = stop_if-Succeeds test refusal w u t first in
    let (sent, hashed) =
      or_false ((candidate == "") || not (cookie == candidate))
        (not (w.host.sha256_hex candidate == session.csrf_hash)) passed in
    let (present, equal) = or_false (candidate == "") (not (cookie == candidate)) sent in
    let same = eq_true cookie candidate (not-false (cookie == candidate) equal) in
    let digest =
      eq_true (w.host.sha256_hex candidate) session.csrf_hash
        (not-false (w.host.sha256_hex candidate == session.csrf_hash) hashed) in
    (
      present,
      same,
      ap w.host.sha256_hex same ∙ digest,
      not-false (same_origin w.host w.cfg r) (stop_if-Succeeds foreign refusal u w' tt rest).0,
    )

-- A request that verifyCSRF lets through sends the value of its CSRF cookie once more, in the
-- header or the form; it is the value that the session was given; and the request comes from the
-- server's own origin or names none.
pub verify_csrf-Succeeds :
    (r : Request) (session : WebSession) (w w' : World)
    → Succeeds (verify_csrf r session) w tt w'
    → IsSent r (value_of "csrf_token" r.cookies)
      × (w.host.sha256_hex (value_of "csrf_token" r.cookies) ≡ session.csrf_hash)
      × (same_origin w.host w.cfg r ≡ true)
unfolding verify_csrf
verify_csrf-Succeeds r session w w' h =
    let cookie = value_of "csrf_token" r.cookies in
    let refusal = json_err_code 403 "csrf_invalid" in
    let (t, u, first, rest) =
      bind-Succeeds (λ _. csrf_candidate r >>= check_candidate r session) tt w'
        (stop_if (cookie == "") refusal) w h in
    let at_u = (stop_if-Succeeds (cookie == "") refusal w u t first).1 in
    let (candidate, v, chosen, last) =
      bind-Succeeds (check_candidate r session) tt w' (csrf_candidate r) u rest in
    let (at_v, sent) = csrf_candidate-IsSent r u v candidate chosen in
    let (present, same, hashed, origin) = checked r session candidate v w' last in
    let back = at_v ∙ at_u in
    (
      subst (IsSent r) (sym same) (sent present),
      subst (λ (x : World). x.host.sha256_hex cookie ≡ session.csrf_hash) back hashed,
      subst (λ (x : World). same_origin x.host x.cfg r ≡ true) back origin,
    )

-- The session on record that a token stands for, which has not expired.
abbrev pub IsLive : World → String → String → WebSession → Type 0
IsLive w token scope s =
    (x : SessionRow) × (find (is_session (w.host.sha256_hex token) scope) w.db.sessions ≡ some x)
    × (w.now < instant x.expires_at)
    × (s ≡ web_session x)

use_session-Succeeds :
    (h : String) (x : SessionRow) (w w' : World) (s : WebSession)
    → Succeeds (use_session h x) w (some s) w'
    → (w.now < instant x.expires_at) × (s ≡ web_session x)
use_session-Succeeds h x w w' s k = elim (Bool-cases (is_expired w.now x.expires_at)) [
  | inl e ↦
      let (t, u, first, rest) =
        bind-Succeeds (λ _. pure none) (some s) w' (try_exec (forget_session h)) w (rw e at k) in
      let clash : ◌≡◌ {A = Exit (Option WebSession)} (ok none) (ok (some s)) = result_of rest in
      absurd (ground arith)
  | inr e ↦ elim (Bool-cases (not (x.token_hash == h))) [
    | inl f ↦
        let clash : ◌≡◌ {A = Exit (Option WebSession)} (ok none) (ok (some s)) =
          result_of (rw (e, f) at k) in
        absurd (ground arith)
    | inr f ↦
        let (t, u, first, rest) =
          bind-Succeeds (λ _. pure (some (web_session x))) (some s) w'
            (try_exec (see_session h (stamp w.now))) w (rw (e, f) at k) in
        let same : ok (some (web_session x)) ≡ ok (some s) = result_of rest in
        let live : ltb w.now (instant x.expires_at) ≡ true =
          not-false (ltb w.now (instant x.expires_at)) e in
        (ltb→lt w.now (instant x.expires_at) live, ground arith)
  ]
]

found_session :
    (w : World) (token scope : String) (r : Row SessionRow) (u w' : World) (s : WebSession)
    → (u ≡ record w { step = suc w.step })
      × ((r ≡ broken)
          ⊎ (r ≡ to_row (find (is_session (w.host.sha256_hex token) scope) w.db.sessions)))
    → Succeeds (with_session (w.host.sha256_hex token) r) u (some s) w'
    → IsLive w token scope s
found_session w token scope (row x) u w' s (at_u, answer) k =
    let test = is_session (w.host.sha256_hex token) scope in
    let (live, same) = use_session-Succeeds (w.host.sha256_hex token) x u w' s k in
    (
      x,
      to_row-some (find test w.db.sessions) (row x) x answer refl,
      subst (λ (v : World). v.now < instant x.expires_at) at_u live,
      same,
    )
found_session w token scope no_rows u w' s h k =
    let clash : ◌≡◌ {A = Exit (Option WebSession)} (ok none) (ok (some s)) = result_of k in
    absurd (ground arith)
found_session w token scope broken u w' s h k =
    let clash : ◌≡◌ {A = Exit (Option WebSession)} (ok none) (ok (some s)) = result_of k in
    absurd (ground arith)

-- A token that loadSession accepts stands for a row of the scope asked for, which has not expired.
pub load_session-Succeeds :
    (token scope : String) (w w' : World) (s : WebSession)
    → Succeeds (load_session token scope) w (some s) w'
    → IsLive w token scope s
unfolding load_session
load_session-Succeeds token scope w w' s k = elim (Bool-cases (token == "")) [
  | inl e ↦
      let clash : ◌≡◌ {A = Exit (Option WebSession)} (ok none) (ok (some s)) =
        result_of (rw e at k) in
      absurd (ground arith)
  | inr e ↦
      let h = w.host.sha256_hex token in
      let f = λ (db : Db). find (is_session h scope) db.sessions in
      let (r, u, asked, rest) =
        bind-Succeeds (with_session h) (some s) w' (query f) w (rw e at k) in
      found_session w token scope r u w' s (query-Succeeds f r w u asked) rest
]
