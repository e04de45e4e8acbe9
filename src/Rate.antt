-- ===== src/Rate.antt =====
-- internal/server/ratelimit.go and rate.go: the attempts that a key may make in a window of time.
-- A bucket's time is in nanoseconds. The map of buckets is a list with distinct keys; the order
-- in which Go visits a map is the order of the list.
pub mod Bounds
pub mod Forms
pub mod Frame
pub mod Digits
use verstak_sync_server.Prelude.{
  ℕ, suc, ◌+◌, ◌-◌, ◌*◌, ◌/◌, String, Bool, true, false, Option, none, some, List, [], ◌∷◌, eqb,
  ltb, leb, ◌&&◌, ◌||◌, not, if◌then◌else◌, ◌==◌, length, delete_where, trim_space,
}
use Prim.Native.String.{◌++◌}
use verstak_sync_server.Schema.{Db}
use verstak_sync_server.Server.World.{World, Host, RateBucket, second}
use verstak_sync_server.Server.Reply.{Reply, json_err}
use verstak_sync_server.Server.Request.{Request, lookup}
use verstak_sync_server.Server.Action.{M, ◌>>=◌, ◌>>◌, pure, gets, stop_if, stop, ok}
use verstak_sync_server.Proxy.{client_ip}
use verstak_sync_server.Audit.{audit_log}

-- Both are positive in every policy of the source; 0 stands for any number that is not.
pub record RatePolicy : Type 0 where
  pub limit : ℕ
  pub window : ℕ

abbrev pub max_rate_limit_buckets : ℕ
max_rate_limit_buckets = 10000

abbrev pub zero_bucket : RateBucket
zero_bucket = record { count = 0; window_start = none; last_seen = 0 }

abbrev pub Buckets : Type 0
Buckets = List (String × RateBucket)

-- l.buckets[key]
abbrev pub bucket_of : Option RateBucket → RateBucket
bucket_of none = zero_bucket
bucket_of (some b) = b

abbrev pub is_zero : Option ℕ → Bool
is_zero none = true
is_zero (some t) = false

-- The loop that finds the bucket seen least recently.
abbrev pub oldest_key : String → ℕ → Buckets → String
oldest_key key seen [] = key
oldest_key key seen ((k, b) ∷ bs) =
    if (key == "") || ltb b.last_seen seen
    then oldest_key k b.last_seen bs
    else oldest_key key seen bs

abbrev pub remove : String → Buckets → Buckets
remove key = delete_where (λ b. b.0 == key)

abbrev pub evict : Buckets → Buckets
evict bs = let key = oldest_key "" 0 bs in if key == "" then bs else remove key bs

-- l.buckets[key] = bucket
abbrev pub put : String → RateBucket → Buckets → Buckets
put key b [] = (key, b) ∷ []
put key b ((k, c) ∷ bs) = if k == key then (k, b) ∷ bs else (k, c) ∷ put key b bs

-- A bucket whose window has not begun, or is over, begins one now.
abbrev pub is_over : ℕ → ℕ → Option ℕ → Bool
is_over now window none = true
is_over now window (some start) = not (ltb now (start + window))

abbrev pub renew : ℕ → ℕ → RateBucket → RateBucket
renew now window b =
    if is_over now window b.window_start
    then record { count = 0; window_start = some now; last_seen = now }
    else record b { last_seen = now }

-- bucket.WindowStart.Add(policy.Window).Sub(now)
abbrev pub remaining : ℕ → ℕ → Option ℕ → ℕ
remaining now window none = 0
remaining now window (some start) = (start + window) - now

abbrev pub consume : ℕ → RatePolicy → RateBucket → (Bool × ℕ) × RateBucket
consume now policy found =
    let b = renew now policy.window found in
    if leb policy.limit b.count
    then ((false, remaining now policy.window b.window_start), b)
    else ((true, 0), record b { count = suc b.count })

-- rateLimiter.Allow
unfoldable pub allow : ℕ → String → RatePolicy → Buckets → (Bool × ℕ) × Buckets
allow now key policy bs =
    if eqb policy.limit 0 || eqb policy.window 0
    then ((true, 0), bs)
    else let b = bucket_of (lookup key bs) in
      let kept =
        if is_zero b.window_start && leb max_rate_limit_buckets (length bs) then evict bs else bs in
      let (verdict, after) = consume now policy b in (verdict, put key after kept)

-- rateLimiter.Cleanup
abbrev pub cleanup : ℕ → ℕ → Buckets → Buckets
cleanup now max_age = delete_where (λ b. ltb max_age (now - b.1.last_seen))

abbrev pub minute : ℕ
minute = 60 * second

-- ratePolicies
abbrev pub rate_policies : List (String × RatePolicy)
rate_policies =
    ("pair", record { limit = 5; window = 15 * minute })
    ∷ ("device-register", record { limit = 5; window = 15 * minute })
    ∷ ("auth-test", record { limit = 10; window = 10 * minute })
    ∷ ("login", record { limit = 10; window = 10 * minute })
    ∷ ("register", record { limit = 5; window = 60 * minute })
    ∷ ("forgot", record { limit = 5; window = 60 * minute })
    ∷ ("reset", record { limit = 8; window = 60 * minute })
    ∷ ("admin-reset", record { limit = 8; window = 60 * minute })
    ∷ []

-- The wait in whole seconds, rounded up, and at least one.
unfoldable pub wait_seconds : ℕ → ℕ
wait_seconds wait =
    let seconds = (wait + (second - 1)) / second in if ltb seconds 1 then 1 else seconds

-- The loop over the keys: the wait of the first that is refused.
unfoldable pub allow_keys : ℕ → RatePolicy → List String → Buckets → Option ℕ × Buckets
unfolding allow wait_seconds
allow_keys now policy [] bs = (none, bs)
allow_keys now policy (key ∷ keys) bs =
    let ((allowed, wait), after) = allow now key policy bs in
    let rest = allow_keys now policy keys after in
    if allowed then rest else (some (wait_seconds wait), after)

abbrev pub limiter : (Buckets → Option ℕ × Buckets) → M (Option ℕ)
limiter f w = let (refused, bs) = f w.buckets in (ok refused, record w { buckets = bs })

-- A refusal is put on record.
abbrev pub note_refusal : String → String → Option ℕ → M (Option ℕ)
note_refusal action ip none = pure none
note_refusal action ip (some wait) = do
  audit_log "rate_limit_exceeded" "" "" ip ("rate limit: " ++ action)
  pure (some wait)

-- The keys of an attempt: the address, and the account where one is given.
abbrev pub attempt_keys : Host → String → String → String → List String
attempt_keys host action ip account =
    let name = host.to_lower (trim_space account) in
    (action ++ ":ip:" ++ ip)
    ∷ (if name == "" then [] else (action ++ ":account:" ++ host.sha256_hex name) ∷ [])

abbrev pub limit_by : Request → String → String → Option RatePolicy → M (Option ℕ)
limit_by r action account none = pure none
limit_by r action account (some policy) = do
  host ← gets (λ w. w.host)
  cfg ← gets (λ w. w.cfg)
  now ← gets (λ w. w.now)
  let ip = client_ip host cfg r
  refused ← limiter (λ bs.
      allow_keys now policy (attempt_keys host action ip account)
        (cleanup now (2 * policy.window) bs))
  note_refusal action ip refused

-- rateRetryAfter: the wait, if the request is refused.
unfoldable pub rate_retry_after : Request → String → String → M (Option ℕ)
unfolding allow_keys client_ip
rate_retry_after r action account = limit_by r action account (lookup action rate_policies)

abbrev pub refuse_after : Reply → Option ℕ → M (Unit {0})
refuse_after reply none = pure tt
refuse_after reply (some wait) = stop reply

-- allowRate
unfoldable pub allow_rate : Request → String → String → M (Unit {0})
unfolding rate_retry_after
allow_rate r action account = do
  refused ← rate_retry_after r action account
  refuse_after (json_err 429) refused
