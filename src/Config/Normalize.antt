-- ===== src/Config/Normalize.antt =====
-- internal/server/config.go: safe defaults, the trusted proxies, and the administrators.
use verstak_sync_server.Prelude.{
  String, Bool, false, not, Option, none, some, List, [], ◌∷◌, ◌==◌, ◌&&◌, ◌||◌, ℤ, pos, negsuc,
  is_nonpositive, eqb, if◌then◌else◌, trim_space, any,
}
use verstak_sync_server.Config.{Config, Limits, Retention, WebConfig, AdminUser, default_limits}
use verstak_sync_server.Server.World.{Host}

-- `if x <= 0 { x = default }`
abbrev pub or_default : ℤ → ℤ → ℤ
or_default default x = if is_nonpositive x then default else x

abbrev pub normalize_limits : Limits → Limits
normalize_limits l = record {
  max_json_body = or_default default_limits.max_json_body l.max_json_body;
  max_push_operations = or_default default_limits.max_push_operations l.max_push_operations;
  max_payload_json = or_default default_limits.max_payload_json l.max_payload_json;
  max_pull_page = or_default default_limits.max_pull_page l.max_pull_page;
  max_blob_bytes = or_default default_limits.max_blob_bytes l.max_blob_bytes;
  max_vault_blob_bytes = or_default default_limits.max_vault_blob_bytes l.max_vault_blob_bytes;
  max_user_blob_bytes = or_default default_limits.max_user_blob_bytes l.max_user_blob_bytes;
}

abbrev pub normalize_retention : Retention → Retention
normalize_retention r = record {
  idempotency_hours = or_default (pos 24) r.idempotency_hours;
  audit_days = or_default (pos 90) r.audit_days;
  temp_upload_hours = or_default (pos 24) r.temp_upload_hours;
}

abbrev pub is_supported : String → Bool
is_supported locale = (locale == "en") || (locale == "ru")

abbrev pub normalize_web : WebConfig → WebConfig
normalize_web web = record web {
  default_locale = if not (is_supported web.default_locale) then "en" else web.default_locale;
  server_name = if trim_space web.server_name == "" then "Verstak Sync Server" else web.server_name;
}

-- One entry of the list of proxies: a CIDR, or an address that stands for itself alone.
abbrev proxy_prefix : Host → String → Option String
proxy_prefix host raw = elim (host.parse_prefix raw) [
  | some prefix ↦ some (host.prefix_masked prefix)
  | none ↦ elim (host.parse_addr raw) [
    | none ↦ none
    | some addr ↦
        some (host.prefix_masked (host.prefix_from addr (if host.addr_is6 addr then 128 else 32)))
  ]
]

abbrev prepend : Option String → Option (List String) → Option (List String)
prepend none rest = none
prepend (some p) none = none
prepend (some p) (some ps) = some (p ∷ ps)

abbrev pub proxy_prefixes : Host → List String → Option (List String)
proxy_prefixes host [] = some []
proxy_prefixes host (raw ∷ raws) =
    let rest = proxy_prefixes host raws in
    if trim_space raw == "" then rest else prepend (proxy_prefix host (trim_space raw)) rest

abbrev pub is_zero : ℤ → Bool
is_zero (pos n) = eqb n 0
is_zero (negsuc n) = false

-- normalize; `loopback` is fmt.Sprintf("127.0.0.1:%d", port).
unfoldable pub normalize : Host → (ℤ → String) → Config → Option Config
normalize host loopback c =
    let port = if is_zero c.port then pos 47732 else c.port in
    elim (proxy_prefixes host c.trusted_proxies) [
      | none ↦ none
      | some prefixes ↦ some (record c {
        port = port;
        listen = if trim_space c.listen == "" then loopback port else c.listen;
        limits = normalize_limits c.limits;
        retention = normalize_retention c.retention;
        web = normalize_web c.web;
        trusted_proxy_prefixes = prefixes;
      })
    ]

-- ListenAddress
unfoldable pub listen_address : (ℤ → String) → Config → String
listen_address loopback c =
    if not (trim_space c.listen == "")
    then trim_space c.listen
    else loopback (if is_zero c.port then pos 47732 else c.port)

abbrev pub replace_admin : AdminUser → List AdminUser → List AdminUser
replace_admin user [] = user ∷ []
replace_admin user (u ∷ us) =
    if u.username == user.username then user ∷ us else u ∷ replace_admin user us

abbrev pub with_hash : String → Config → Option String → Option Config
with_hash username c none = none
with_hash username c (some hash) = some (record c {
  admin = replace_admin (record { username = username; password_hash = hash }) c.admin;
})

-- SetAdmin, before the file is written. No change if bcrypt refuses the password.
unfoldable pub set_admin : Host → String → String → Config → Option Config
set_admin host username password c = with_hash username c (host.bcrypt_hash password 10)

-- CheckAdmin
unfoldable pub check_admin : Host → String → String → Config → Bool
check_admin host username password c =
    any
      (λ (u : AdminUser). (u.username == username) && host.bcrypt_matches u.password_hash password)
      c.admin
