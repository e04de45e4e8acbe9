-- ===== src/Session/Frame.antt =====
-- What the guards of a session leave as it was: everything but the sessions on record.
use verstak_sync_server.Prelude.{
  ℕ, suc, ◌≡◌, refl, String, Bool, true, false, not, Option, none, some, List, ◌==◌, ◌||◌,
  Bool-cases, inl, inr, find,
}
use verstak_sync_server.Schema.{Db, SessionRow}
use verstak_sync_server.Server.World.{World, stamp}
use verstak_sync_server.Server.Reply.{Reply, redirect, json_err_code}
use verstak_sync_server.Server.Request.{Request, lookup, value_of}
use verstak_sync_server.Server.Action.{
  ◌>>=◌, pure, or_stop, stop_if, query, Row, row, no_rows, broken, try_exec,
}
use verstak_sync_server.Server.Frame.{Keeps, bind-Keeps, try_exec-Keeps, query-Keeps}
use verstak_sync_server.Session.Store.{
  WebSession, web_session, use_session, drop_session, keep_session, with_session, load_session,
  is_expired, is_session, forget_session, see_session, require_session, cookie_of, login_of,
}
use verstak_sync_server.Session.Csrf.{
  same_origin, csrf_candidate, check_candidate, is_form, verify_csrf,
}

module _ {κ} {X : Type κ} (g : World → X) where
  pub stop_if-Keeps : (bad : Bool) (reply : Reply) → Keeps g (stop_if bad reply)
  stop_if-Keeps true reply w = refl
  stop_if-Keeps false reply w = refl

  pub or_stop-Keeps {ℓ} : {A : Type ℓ} (o : Option A) (reply : Reply) → Keeps g (or_stop o reply)
  or_stop-Keeps none reply w = refl
  or_stop-Keeps (some a) reply w = refl

  csrf_candidate-Keeps : (r : Request) → Keeps g (csrf_candidate r)
  unfolding csrf_candidate
  csrf_candidate-Keeps r w = elim (Bool-cases (not (r.csrf_header == ""))) [
    | inl e ↦ rw e refl
    | inr e ↦ elim (Bool-cases (is_form r)) [
      | inr f ↦ rw (e, f) refl
      | inl f ↦ elim (Bool-cases r.form_valid) [
        | inl k ↦ rw (e, f, k) refl
        | inr k ↦ rw (e, f, k) refl
      ]
    ]
  ]

  check_candidate-Keeps :
      (r : Request) (s : WebSession) (candidate : String) → Keeps g (check_candidate r s candidate)
  check_candidate-Keeps r s candidate w =
      let refusal = json_err_code 403 "csrf_invalid" in
      let foreign = stop_if (not (same_origin w.host w.cfg r)) refusal in
      let test =
        (candidate == "")
        || not (value_of "csrf_token" r.cookies == candidate)
        || not (w.host.sha256_hex candidate == s.csrf_hash) in
      bind-Keeps g (stop_if test refusal) (λ _. foreign) (stop_if-Keeps test refusal)
        (λ _. stop_if-Keeps (not (same_origin w.host w.cfg r)) refusal) w

  pub verify_csrf-Keeps : (r : Request) (s : WebSession) → Keeps g (verify_csrf r s)
  unfolding verify_csrf
  verify_csrf-Keeps r s w =
      let absent = value_of "csrf_token" r.cookies == "" in
      let refusal = json_err_code 403 "csrf_invalid" in
      bind-Keeps g (stop_if absent refusal) (λ _. csrf_candidate r >>= check_candidate r s)
        (stop_if-Keeps absent refusal)
        (λ _.
          bind-Keeps g (csrf_candidate r) (check_candidate r s) (csrf_candidate-Keeps r)
            (check_candidate-Keeps r s))
        w

  module _ (idle : (w : World) → g (record w { step = suc w.step }) ≡ g w)
      (aside : (w : World) (ss : List SessionRow)
        → g (record w { step = suc w.step; db = record w.db { sessions = ss } }) ≡ g w) where
    drop_session-Keeps : (h : String) → Keeps g (drop_session h)
    drop_session-Keeps h =
        bind-Keeps g (try_exec (forget_session h)) (λ _. pure none)
          (try_exec-Keeps g (forget_session h) idle (λ w. aside w (forget_session h w.db).sessions))
          (λ _ _. refl)

    keep_session-Keeps : (h : String) (now : ℕ) (x : SessionRow) → Keeps g (keep_session h now x)
    keep_session-Keeps h now x =
        bind-Keeps g (try_exec (see_session h (stamp now))) (λ _. pure (some (web_session x)))
          (try_exec-Keeps g (see_session h (stamp now)) idle
            (λ w. aside w (see_session h (stamp now) w.db).sessions))
          (λ _ _. refl)

    use_session-Keeps : (h : String) (x : SessionRow) → Keeps g (use_session h x)
    use_session-Keeps h x w = elim (Bool-cases (is_expired w.now x.expires_at)) [
      | inl e ↦ rw e (drop_session-Keeps h w)
      | inr e ↦ elim (Bool-cases (not (x.token_hash == h))) [
        | inl f ↦ rw (e, f) refl
        | inr f ↦ rw (e, f) (keep_session-Keeps h w.now x w)
      ]
    ]

    with_session-Keeps : (h : String) (r : Row SessionRow) → Keeps g (with_session h r)
    with_session-Keeps h (row x) = use_session-Keeps h x
    with_session-Keeps h no_rows = λ _. refl
    with_session-Keeps h broken = λ _. refl

    pub load_session-Keeps : (token scope : String) → Keeps g (load_session token scope)
    unfolding load_session
    load_session-Keeps token scope w = elim (Bool-cases (token == "")) [
      | inl e ↦ rw e refl
      | inr e ↦
          let h = w.host.sha256_hex token in
          let f = λ (db : Db). find (is_session h scope) db.sessions in
          rw e (
            bind-Keeps g (query f) (with_session h) (query-Keeps g f idle) (with_session-Keeps h) w)
    ]

    pub require_session-Keeps : (r : Request) (scope : String) → Keeps g (require_session r scope)
    unfolding require_session
    require_session-Keeps r scope =
        let login = redirect 302 (login_of scope) in
        bind-Keeps g (or_stop (lookup (cookie_of scope) r.cookies) login)
          (λ token. load_session token scope >>= λ found. or_stop found login)
          (or_stop-Keeps (lookup (cookie_of scope) r.cookies) login)
          (λ token.
            bind-Keeps g (load_session token scope) (λ found. or_stop found login)
              (load_session-Keeps token scope) (λ found. or_stop-Keeps found login))
