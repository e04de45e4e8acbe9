-- ===== src/Rate/Frame.antt =====
-- What a counted attempt leaves as it was: everything but the buckets and the audit log.
use verstak_sync_server.Prelude.{
  ℕ, suc, ◌*◌, ◌≡◌, refl, String, Option, none, some, List, [], ◌∷◌, ◌++◌,
}
use verstak_sync_server.Device.Credentials.{concat}
use verstak_sync_server.Schema.{Db, AuditRow}
use verstak_sync_server.Server.World.{World, stamp}
use verstak_sync_server.Server.Reply.{Reply, json_err}
use verstak_sync_server.Server.Request.{Request, lookup}
use verstak_sync_server.Server.Action.{pure}
use verstak_sync_server.Server.Frame.{Keeps, bind-Keeps, try_exec-Keeps}
use verstak_sync_server.Audit.{audit_log}
use verstak_sync_server.Proxy.{client_ip}
use verstak_sync_server.Locale.{web_error}
use verstak_sync_server.Rate.{
  Buckets, RatePolicy, allow_keys, cleanup, limiter, rate_policies, rate_retry_after, allow_rate,
  note_refusal, attempt_keys, limit_by, refuse_after,
}
use verstak_sync_server.Rate.Forms.{allow_web_rate}

module _ {κ} {X : Type κ} (g : World → X)
    (idle : (w : World) → g (record w { step = suc w.step }) ≡ g w)
    (logged : (w : World) (rows : List AuditRow)
      → g (record w { step = suc w.step; db = record w.db { audit_log = rows } }) ≡ g w) where
  pub audit_log-Keeps :
      (event user device ip message : String) → Keeps g (audit_log event user device ip message)
  unfolding audit_log
  audit_log-Keeps event user device ip message w =
      let add = λ (db : Db). record db {
        audit_log =
            db.audit_log
            ++ record {
              event_type = event;
              user_id = user;
              device_id = device;
              ip = ip;
              message = message;
              created_at = stamp w.now;
            }
              ∷ [];
      } in
      try_exec-Keeps g add idle (λ v. logged v (add v.db).audit_log) w

  module _ (limited : (w : World) (bs : Buckets) → g (record w { buckets = bs }) ≡ g w) where
    limiter-Keeps : (f : Buckets → Option ℕ × Buckets) → Keeps g (limiter f)
    limiter-Keeps f w = limited w (f w.buckets).1

    note_refusal-Keeps :
        (action ip : String) (refused : Option ℕ) → Keeps g (note_refusal action ip refused)
    note_refusal-Keeps action ip none = λ _. refl
    note_refusal-Keeps action ip (some wait) =
        let message = concat "rate limit: " action in
        bind-Keeps g (audit_log "rate_limit_exceeded" "" "" ip message) (λ _. pure (some wait))
          (audit_log-Keeps "rate_limit_exceeded" "" "" ip message) (λ _ _. refl)

    limit_by-Keeps :
        (r : Request) (action account : String) (policy : Option RatePolicy)
        → Keeps g (limit_by r action account policy)
    limit_by-Keeps r action account none w = refl
    limit_by-Keeps r action account (some policy) w =
        let ip = client_ip w.host w.cfg r in
        let count = λ (bs : Buckets).
          allow_keys w.now policy (attempt_keys w.host action ip account)
            (cleanup w.now (2 * policy.window) bs) in
        bind-Keeps g (limiter count) (note_refusal action ip) (limiter-Keeps count)
          (note_refusal-Keeps action ip) w

    rate_retry_after-Keeps :
        (r : Request) (action account : String) → Keeps g (rate_retry_after r action account)
    unfolding rate_retry_after
    rate_retry_after-Keeps r action account =
        limit_by-Keeps r action account (lookup action rate_policies)

    refuse_after-Keeps : (reply : Reply) (refused : Option ℕ) → Keeps g (refuse_after reply refused)
    refuse_after-Keeps reply none = λ _. refl
    refuse_after-Keeps reply (some wait) = λ _. refl

    pub allow_rate-Keeps :
        (r : Request) (action account : String) → Keeps g (allow_rate r action account)
    unfolding allow_rate
    allow_rate-Keeps r action account =
        bind-Keeps g (rate_retry_after r action account) (refuse_after (json_err 429))
          (rate_retry_after-Keeps r action account) (refuse_after-Keeps (json_err 429))

    pub allow_web_rate-Keeps :
        (r : Request) (action account : String) → Keeps g (allow_web_rate r action account)
    unfolding allow_web_rate
    allow_web_rate-Keeps r action account =
        let refusal = web_error 429 "error.rateLimited" in
        bind-Keeps g (rate_retry_after r action account) (refuse_after refusal)
          (rate_retry_after-Keeps r action account) (refuse_after-Keeps refusal)
