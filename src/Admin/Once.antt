-- ===== src/Admin/Once.antt =====
-- A generated password is shown once, to the session that asked for it, and not after it expires.
use verstak_sync_server.Prelude.{
  ℕ, ◌+◌, ◌≡◌, ◌≢◌, refl, sym, ap, ◌∙◌, subst, String, true, false, not, none, some, [], ◌∷◌, ◌==◌,
  ltb, if◌then◌else◌, Bool-cases, inl, inr, arith, eq_refl, eq_true, eq_iff, eq_false_of_ne,
}
use verstak_sync_server.Server.World.{World, Host, OneTimeWebSecret}
use verstak_sync_server.Server.Request.{lookup}
use verstak_sync_server.Admin.Secrets.{
  Secrets, secret_lifetime, purge, put_secret, remove_secret, secret_at, store_secret, take_secret,
}

-- The keys of a map are distinct.
abbrev pub IsKeyed : Secrets → Type 0
IsKeyed [] = Unit
IsKeyed ((k, v) ∷ m) = (lookup k m ≡ none) × IsKeyed m

lookup-put_secret :
    (j key : String) (v : OneTimeWebSecret) (m : Secrets)
    → lookup j (put_secret key v m) ≡ (if key == j then some v else lookup j m)
lookup-put_secret j key v [] = refl
lookup-put_secret j key v ((k, u) ∷ m) = elim (Bool-cases (k == key)) [
  | inl e ↦
      let same = eq_true k key e in
      rw e (elim (Bool-cases (key == j)) [ inl f ↦ rw (same, f) | inr f ↦ rw (same, f) ])
  | inr e ↦ elim (Bool-cases (k == j)) [
    | inl f ↦
        let same = eq_true k j f in
        let other : (key == j) ≡ false = elim (Bool-cases (key == j)) [
          | inl g ↦
              let clash : (k == key) ≡ true = (eq_iff k key).1 (same ∙ sym (eq_true key j g)) in
              absurd (ground arith)
          | inr g ↦ g
        ] in
        rw (e, f, other)
    | inr f ↦ rw (e, f) (lookup-put_secret j key v m)
  ]
]

lookup-remove_secret : (key : String) (m : Secrets) → lookup key (remove_secret key m) ≡ none
lookup-remove_secret key [] = refl
lookup-remove_secret key ((k, v) ∷ m) = elim (Bool-cases (k == key)) [
  | inl e ↦ rw e (lookup-remove_secret key m)
  | inr e ↦ rw (e, e) (lookup-remove_secret key m)
]

absent_stays :
    (now : ℕ) (j : String) (m : Secrets) → lookup j m ≡ none → lookup j (purge now m) ≡ none
absent_stays now j [] h = refl
absent_stays now j ((k, v) ∷ m) h = elim (Bool-cases (k == j)) [
  | inl e ↦ let clash : some v ≡ none = rw e at h in absurd (ground arith)
  | inr e ↦
      let rest = absent_stays now j m (rw e at h) in
      elim (Bool-cases (not (ltb now v.expires_at))) [ inl f ↦ rw f rest | inr f ↦ rw (f, e) rest ]
]

-- What is dropped could not be taken any more.
secret_at-purge :
    (now : ℕ) (j : String) (m : Secrets)
    → IsKeyed m
    → secret_at now (lookup j (purge now m)) ≡ secret_at now (lookup j m)
secret_at-purge now j [] h = refl
secret_at-purge now j ((k, v) ∷ m) (h, hs) = elim (Bool-cases (k == j)) [
  | inl e ↦ elim (Bool-cases (not (ltb now v.expires_at))) [
    | inl f ↦
        let gone : ltb now v.expires_at ≡ false = ground arith in
        let absent = absent_stays now j m (subst (λ s. lookup s m ≡ none) (eq_true k j e) h) in
        rw (f, absent, e, gone)
    | inr f ↦ rw (f, e)
  ]
  | inr e ↦ elim (Bool-cases (not (ltb now v.expires_at))) [
    | inl f ↦ rw (f, e) (secret_at-purge now j m hs)
    | inr f ↦ rw (f, e) (secret_at-purge now j m hs)
  ]
]

-- What a session takes is, until the five minutes are over, what was stored for it last; it is
-- nothing in any later state that has kept the map as it was left, and after the five minutes; and
-- to another session, whose token has another hash, the storing has changed nothing. The keys of
-- the map are distinct before.
pub store_secret-take_secret :
    (token secret : String) (w : World)
    → IsKeyed w.web_secrets
    → ((now : ℕ)
        → let later : World = record (store_secret token secret w) { now = now } in
          (take_secret token later).0 ≡ (if ltb now (w.now + secret_lifetime) then secret else ""))
      × ((before later : World)
          → later.host ≡ before.host
          → later.web_secrets ≡ (take_secret token before).1.web_secrets
          → (take_secret token later).0 ≡ "")
      × ((other : String)
          → w.host.sha256_hex token ≢ w.host.sha256_hex other
          → (take_secret other (store_secret token secret w)).0 ≡ (take_secret other w).0)
unfolding store_secret take_secret
store_secret-take_secret token secret w keyed = (own, once, others)
  where
    key : Host → String
    key host = host.sha256_hex token

    entry : OneTimeWebSecret
    entry = record { value = secret; expires_at = w.now + secret_lifetime }

    own :
        (now : ℕ)
        → secret_at now
            (lookup (key w.host) (put_secret (key w.host) entry (purge w.now w.web_secrets)))
          ≡ (if ltb now (w.now + secret_lifetime) then secret else "")
    own now =
        rw
          (
            lookup-put_secret (key w.host) (key w.host) entry (purge w.now w.web_secrets),
            eq_refl (key w.host),
          )
          refl

    once :
        (before later : World)
        → later.host ≡ before.host
        → later.web_secrets ≡ remove_secret (key before.host) before.web_secrets
        → secret_at later.now (lookup (key later.host) later.web_secrets) ≡ ""
    once before later h e =
        let gone : lookup (key later.host) later.web_secrets ≡ none =
          subst (λ host. lookup (key host) later.web_secrets ≡ none) (sym h)
            (ap (lookup (key before.host)) e
              ∙ lookup-remove_secret (key before.host) before.web_secrets) in
        ap (secret_at later.now) gone

    others :
        (other : String)
        → key w.host ≢ w.host.sha256_hex other
        → secret_at w.now (
            lookup
              (w.host.sha256_hex other)
              (put_secret (key w.host) entry (purge w.now w.web_secrets)))
          ≡ secret_at w.now (lookup (w.host.sha256_hex other) w.web_secrets)
    others other h =
        rw
          (
            lookup-put_secret (w.host.sha256_hex other) (key w.host) entry
                (purge w.now w.web_secrets),
            eq_false_of_ne (key w.host) (w.host.sha256_hex other) h,
          )
          (secret_at-purge w.now (w.host.sha256_hex other) w.web_secrets keyed)
