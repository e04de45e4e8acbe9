-- ===== src/Config/Admins.antt =====
-- The administrators of the settings: who is let in after SetAdmin, and that a server which must
-- have an administrator has one.
use verstak_sync_server.Prelude.{
  ◌≡◌, refl, sym, ap, ◌∙◌, subst, String, Bool, true, false, Option, none, some, List, [], ◌∷◌, ℤ,
  ◌==◌, ◌&&◌, ◌||◌, if◌then◌else◌, any, Bool-cases, inl, inr, All, arith, eq_true, eq_iff,
}
use verstak_sync_server.Config.{Config, AdminUser}
use verstak_sync_server.Config.Normalize.{
  normalize, set_admin, check_admin, replace_admin, with_hash,
}
use verstak_sync_server.Config.Start.{
  Flags, has_admin, start, and_then, with_overrides, initial_admin_password, with_flag_admin,
  bootstrap_admin_from_env, go_on, set_up, with_password, bootstrap_name, weak_bootstrap,
}
use verstak_sync_server.Server.World.{Host}

-- The names are distinct.
abbrev pub HasNames : List AdminUser → Type 0
HasNames [] = Unit
HasNames (u ∷ us) = All (λ (v : AdminUser). (v.username == u.username) ≡ false) us × HasNames us

or_right : (b : Bool) → (b || false) ≡ b
or_right true = refl
or_right false = refl

module _ (host : Host) (password : String) where
  abbrev fits : String → AdminUser → Bool
  fits name u = (u.username == name) && host.bcrypt_matches u.password_hash password

  none_fits :
      (name : String) (us : List AdminUser)
      → All (λ (v : AdminUser). (v.username == name) ≡ false) us
      → any (fits name) us ≡ false
  none_fits name [] h = refl
  none_fits name (u ∷ us) (h, hs) = rw (h, none_fits name us hs) refl

  any-replace_admin :
      (user : AdminUser) (name : String) (us : List AdminUser)
      → HasNames us
      → any (fits name) (replace_admin user us) ≡ (
          if user.username == name
          then host.bcrypt_matches user.password_hash password
          else any (fits name) us)
  any-replace_admin user name [] h = elim (Bool-cases (user.username == name)) [
    | inl e ↦ rw e (or_right (host.bcrypt_matches user.password_hash password))
    | inr e ↦ rw e refl
  ]
  any-replace_admin user name (u ∷ us) (h, hs) = elim (Bool-cases (u.username == user.username)) [
    | inl e ↦
        let same = eq_true u.username user.username e in
        elim (Bool-cases (user.username == name)) [
          | inl f ↦
              let others =
                subst (λ n. All (λ (v : AdminUser). (v.username == n) ≡ false) us)
                  (same ∙ eq_true user.username name f) h in
              rw (e, f, none_fits name us others)
                (or_right (host.bcrypt_matches user.password_hash password))
          | inr f ↦
              let other : (u.username == name) ≡ false =
                subst (λ n. (n == name) ≡ false) (sym same) f in
              rw (e, f, other) refl
        ]
    | inr e ↦
        let rest = any-replace_admin user name us hs in
        elim (Bool-cases (user.username == name)) [
          | inl f ↦
              let other : (u.username == name) ≡ false =
                subst (λ n. (u.username == n) ≡ false) (eq_true user.username name f) e in
              let here : any (fits name) (replace_admin user us)
                  ≡ host.bcrypt_matches user.password_hash password =
                rest ∙ rw f refl in
              rw (e, f, other) here
          | inr f ↦
              let here : any (fits name) (replace_admin user us) ≡ any (fits name) us =
                rest ∙ rw f refl in
              rw (e, f) (ap (λ b. fits name u || b) here)
        ]
  ]

with_hash-some :
    (username : String) (c c' : Config) (o : Option String)
    → with_hash username c o ≡ some c'
    → (hash : String) × (o ≡ some hash)
      × (record c {
        admin = replace_admin (record { username = username; password_hash = hash }) c.admin;
      }
          ≡ c')
with_hash-some username c c' none h = absurd (ground arith)
with_hash-some username c c' (some hash) h = (hash, refl, ground arith)

-- After SetAdmin the user named is let in with exactly the passwords that the new hash matches,
-- so the new one serves where bcrypt matches it with its hash and an old one no more; any other
-- user is let in as before. The names of the administrators are distinct before.
pub set_admin-check_admin :
    (host : Host) (username password : String) (c c' : Config)
    → HasNames c.admin
    → set_admin host username password c ≡ some c'
    → (hash : String) × (host.bcrypt_hash password 10 ≡ some hash)
      × ((name given : String)
          → check_admin host name given c' ≡ (
              if username == name
              then host.bcrypt_matches hash given
              else check_admin host name given c))
unfolding set_admin check_admin
set_admin-check_admin host username password c c' names h =
    let (hash, e, is) = with_hash-some username c c' (host.bcrypt_hash password 10) h in
    let user : AdminUser = record { username = username; password_hash = hash } in
    (
      hash,
      e,
      λ name given.
          ap (λ (d : Config). any (fits host given name) d.admin) (sym is)
          ∙ any-replace_admin host given user name c.admin names,
    )

-- There is at least one.
some_admin :
    (user : AdminUser) (us : List AdminUser) (c : Config)
    → has_admin (record c { admin = replace_admin user us }) ≡ true
some_admin user [] c = refl
some_admin user (u ∷ us) c = elim (Bool-cases (u.username == user.username)) [
  | inl e ↦ rw e refl
  | inr e ↦ rw e refl
]

bootstrapped :
    (host : Host) (env : String → String) (c c' : Config)
    → env "VERSTAK_REQUIRE_ADMIN" ≡ "1"
    → bootstrap_admin_from_env host env c ≡ some c'
    → has_admin c' ≡ true
unfolding bootstrap_admin_from_env set_admin
bootstrapped host env c c' required h = elim (Bool-cases (has_admin c)) [
  | inl e ↦
      let same : some c ≡ some c' = rw e at h in
      let is : c ≡ c' = ground arith in subst (λ d. has_admin d ≡ true) is e
  | inr e ↦ elim (Bool-cases (env "VERSTAK_BOOTSTRAP_ADMIN_PASSWORD" == "")) [
    | inl f ↦
        let asked : (env "VERSTAK_REQUIRE_ADMIN" == "1") ≡ true =
          (eq_iff (env "VERSTAK_REQUIRE_ADMIN") "1").1 required in
        let clash : ◌≡◌ {A = Option Config} none (some c') = rw (e, f, asked) at h in
        absurd (ground arith)
    | inr f ↦ elim (Bool-cases (weak_bootstrap (env "VERSTAK_BOOTSTRAP_ADMIN_PASSWORD"))) [
      | inl g ↦
          let clash : ◌≡◌ {A = Option Config} none (some c') = rw (e, f, g) at h in
          absurd (ground arith)
      | inr g ↦
          let made : with_hash (bootstrap_name env) c
                (host.bcrypt_hash (env "VERSTAK_BOOTSTRAP_ADMIN_PASSWORD") 10)
              ≡ some c' =
            rw (e, f, g) at h in
          let (hash, _, is) =
            with_hash-some (bootstrap_name env) c c'
              (host.bcrypt_hash (env "VERSTAK_BOOTSTRAP_ADMIN_PASSWORD") 10) made in
          let user : AdminUser = record { username = bootstrap_name env; password_hash = hash } in
          subst (λ d. has_admin d ≡ true) is (some_admin user c.admin c)
    ]
  ]
]

and_then-some {ℓ κ} :
    {A : Type ℓ} {B : Type κ} (o : Option A) (f : A → Option B) (b : B)
    → and_then o f ≡ some b
    → (a : A) × (o ≡ some a) × (f a ≡ some b)
and_then-some none f b h = absurd (ground arith)
and_then-some (some a) f b h = (a, refl, h)

go_on-has_admin :
    (host : Host) (env : String → String) (flags : Flags) (set c : Config)
    → env "VERSTAK_REQUIRE_ADMIN" ≡ "1"
    → go_on host env flags set ≡ some (c, true)
    → has_admin c ≡ true
unfolding go_on
go_on-has_admin host env flags set c required h = elim (Bool-cases flags.init_admin) [
  | inl e ↦
      let clash : ◌≡◌ {A = Option (Config × Bool)} (some (set, false)) (some (c, true)) =
        rw e at h in
      let differ : false ≡ true = ap second_or_true clash in absurd (ground arith)
  | inr e ↦
      let boot = bootstrap_admin_from_env host env set in
      let run : and_then boot (λ done. some (done, true)) ≡ some (c, true) = rw e at h in
      let (done, made, is) = and_then-some boot (λ done. some (done, true)) (c, true) run in
      subst (λ d. has_admin d ≡ true) (ap (first_or c) is)
        (bootstrapped host env set done required made)
]
  where
    second_or_true : Option (Config × Bool) → Bool
    second_or_true none = true
    second_or_true (some p) = p.1

    first_or : Config → Option (Config × Bool) → Config
    first_or d none = d
    first_or d (some p) = p.0

-- A server that is told to have an administrator does not go on to serve without one.
pub start-has_admin :
    (host : Host) (loopback : ℤ → String) (env : String → String) (flags : Flags) (file c : Config)
    → env "VERSTAK_REQUIRE_ADMIN" ≡ "1"
    → start host loopback env flags file ≡ some (c, true)
    → has_admin c ≡ true
unfolding start
start-has_admin host loopback env flags file c required h =
    let (n, _, rest) =
      and_then-some (normalize host loopback (with_overrides loopback env flags file))
        (with_password host env flags) (c, true) h in
    let (password, _, more) =
      and_then-some (initial_admin_password flags) (set_up host env flags n) (c, true) rest in
    let (set, _, end) =
      and_then-some (with_flag_admin host flags password n) (go_on host env flags) (c, true) more in
    go_on-has_admin host env flags set c required end
