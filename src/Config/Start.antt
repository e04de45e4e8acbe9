-- ===== src/Config/Start.antt =====
-- cmd/server/main.go: the settings with which the server starts, from the file, the environment
-- and the flags. None is a start that is given up.
use verstak_sync_server.Prelude.{
  String, Bool, true, false, not, Option, none, some, List, [], ◌∷◌, ◌==◌, ◌&&◌, ◌||◌, ltb, ℤ,
  if◌then◌else◌, trim_space, split, codes, length,
}
use verstak_sync_server.Config.{Config}
use verstak_sync_server.Config.Normalize.{normalize, set_admin, is_zero}
use verstak_sync_server.Server.World.{Host}

-- The flags that the settings depend on, and what is in the password file and on the standard
-- input.
pub record Flags : Type 0 where
  pub listen : String
  pub port : ℤ
  pub admin_user : String
  pub admin_pass_file : String
  pub admin_pass_stdin : Bool
  pub init_admin : Bool
  pub read_file : String → Option String
  pub stdin : Option String

abbrev pub or_else : String → String → String
or_else value other = if value == "" then other else value

-- The overrides of main; `loopback` is fmt.Sprintf("127.0.0.1:%d", port).
abbrev pub chosen_listen : (ℤ → String) → (String → String) → Flags → String → String
chosen_listen loopback env flags listen =
    let given = or_else flags.listen (or_else (trim_space (env "VERSTAK_LISTEN")) listen) in
    if not (is_zero flags.port) && (flags.listen == "") then loopback flags.port else given

abbrev pub chosen_proxies : String → List String → List String
chosen_proxies trusted listed = if trusted == "" then listed else split 44 trusted

abbrev pub with_overrides : (ℤ → String) → (String → String) → Flags → Config → Config
with_overrides loopback env flags c = record c {
  listen = chosen_listen loopback env flags c.listen;
  public_url = or_else (trim_space (env "VERSTAK_PUBLIC_URL")) c.public_url;
  trusted_proxies = chosen_proxies (trim_space (env "VERSTAK_TRUSTED_PROXIES")) c.trusted_proxies;
}

abbrev pub read_password : Option String → Option String
read_password none = none
read_password (some text) = if trim_space text == "" then none else some (trim_space text)

-- initialAdminPassword
unfoldable pub initial_admin_password : Flags → Option String
initial_admin_password flags =
    let given = not (flags.admin_pass_file == "") in
    if given && flags.admin_pass_stdin
    then none
    else if not given && not flags.admin_pass_stdin
    then some ""
    else read_password (if given then flags.read_file flags.admin_pass_file else flags.stdin)

abbrev pub has_admin : Config → Bool
has_admin c = elim c.admin [ [] ↦ false | u ∷ us ↦ true ]

abbrev pub bootstrap_name : (String → String) → String
bootstrap_name env = or_else (trim_space (env "VERSTAK_BOOTSTRAP_ADMIN_USER")) "admin"

-- A password for the first start is refused if it is short or blank.
abbrev pub weak_bootstrap : String → Bool
weak_bootstrap password = ltb (length (codes password)) 12 || (trim_space password == "")

-- bootstrapAdminFromEnv
unfoldable pub bootstrap_admin_from_env : Host → (String → String) → Config → Option Config
unfolding set_admin
bootstrap_admin_from_env host env c =
    let password = env "VERSTAK_BOOTSTRAP_ADMIN_PASSWORD" in
    if has_admin c
    then some c
    else if password == ""
    then (if env "VERSTAK_REQUIRE_ADMIN" == "1" then none else some c)
    else if weak_bootstrap password
    then none
    else set_admin host (bootstrap_name env) password c

-- The user and the password of the flags, which come together or not at all.
abbrev pub with_flag_admin : Host → Flags → String → Config → Option Config
with_flag_admin host flags password c =
    if flags.admin_user == ""
    then (if password == "" && not flags.init_admin then some c else none)
    else if password == ""
    then none
    else set_admin host flags.admin_user password c

abbrev pub and_then {ℓ κ} : {A : Type ℓ} {B : Type κ} → Option A → (A → Option B) → Option B
and_then none f = none
and_then (some a) f = f a

-- With `--init-admin` the program ends here.
unfoldable pub go_on : Host → (String → String) → Flags → Config → Option (Config × Bool)
unfolding bootstrap_admin_from_env
go_on host env flags c =
    if flags.init_admin
    then some (c, false)
    else and_then (bootstrap_admin_from_env host env c) (λ done. some (done, true))

abbrev pub set_up : Host → (String → String) → Flags → Config → String → Option (Config × Bool)
set_up host env flags c password =
    and_then (with_flag_admin host flags password c) (go_on host env flags)

abbrev pub with_password : Host → (String → String) → Flags → Config → Option (Config × Bool)
with_password host env flags c = and_then (initial_admin_password flags) (set_up host env flags c)

-- The part of main before the database is opened: the settings, and whether the server goes on.
unfoldable pub start :
    Host → (ℤ → String) → (String → String) → Flags → Config → Option (Config × Bool)
unfolding normalize initial_admin_password go_on
start host loopback env flags file =
    and_then (normalize host loopback (with_overrides loopback env flags file))
      (with_password host env flags)
