-- ===== src/Tests/Pairing.antt =====
-- A phone is paired with the vault of its user, and makes its first request; and the user looks at
-- the list of devices.
use verstak_sync_server.Prelude.{
  ◌≡◌, refl, true, false, none, some, [], ◌∷◌, trim_prefix, String, All,
}
use verstak_sync_server.Schema.{UserRow, empty_db}
use verstak_sync_server.Server.World.{World}
use verstak_sync_server.Server.Action.{ok, statement, exec_unique, transaction}
use verstak_sync_server.Server.Faults.{quiet}
use verstak_sync_server.Server.Success.{Succeeds}
use verstak_sync_server.Device.Auth.{require_sync_scope, device_key}
use verstak_sync_server.Device.Enroll.{new_device, pair_device}
use verstak_sync_server.Device.Paired.{pair_device-require_sync_scope}
use verstak_sync_server.Server.Request.{Request, lookup}
use verstak_sync_server.Session.Store.{WebSession, require_session, load_session}
use verstak_sync_server.Session.Safety.{IsLive}
use verstak_sync_server.Server.Action.{query, try_exec}
use verstak_sync_server.Device.Overview.{DeviceItem, handle_user_devices}
use verstak_sync_server.Device.Private.{IsOwnItem, handle_user_devices-IsOwnItem}
use verstak_sync_server.Tests.Lists.{plain_sql}
use verstak_sync_server.Tests.Fixtures.{plain_host, world_of}
use verstak_sync_server.Tests.Access.{device, request_with}

abbrev anna : UserRow
anna = record {
  id = "u1";
  username = "anna";
  email = "anna@example.org";
  password_hash = "$pw";
  confirmed = true;
  blocked = false;
  last_seen = none;
  created_at = 0;
}

abbrev before : World
before = world_of (record empty_db {
  users = anna ∷ [];
  devices = device "dev_1" "#one" ∷ [];
  user_devices = record { user_id = "u1"; device_id = "dev_1" } ∷ [];
})

abbrev after : World
after =
    (pair_device (new_device "dev_9" "phone" "0123456789abcdef" "u1" "v1" none none 7 plain_host)
      "u1" 7 before).1

paired :
    Succeeds
      (pair_device
        (new_device "dev_9" "phone" "0123456789abcdef" "u1" "v1" none none 7 plain_host)
        "u1"
        7)
      before
      tt
      after
unfolding pair_device transaction statement exec_unique
paired = refl

the_key : device_key (request_with "Bearer 0123456789abcdef" []) ≡ "0123456789abcdef"
unfolding device_key trim_prefix
the_key = refl

pair_device-require_sync_scope_example :
    (require_sync_scope (request_with "Bearer 0123456789abcdef" []) (quiet after)).0
    ≡ ok (record { device_id = "dev_9"; user_id = "u1"; vault_id = "v1" })
unfolding pair_device transaction statement exec_unique
pair_device-require_sync_scope_example =
    pair_device-require_sync_scope "dev_9" "phone" "0123456789abcdef" "u1" "v1" none none 7 anna
      (request_with "Bearer 0123456789abcdef" []) before after after paired refl refl refl refl refl
      refl the_key refl refl

-- Two devices, of which one is Anna's, and her session.
abbrev at_home : World
at_home = world_of (record empty_db {
  users = anna ∷ [];
  devices = device "dev_1" "#one" ∷ device "dev_2" "#two" ∷ [];
  user_devices = record { user_id = "u1"; device_id = "dev_2" } ∷ [];
  sessions =
      record {
        token_hash = "#t";
        csrf_hash = "#c";
        scope = "user";
        subject_id = "u1";
        expires_at = 500;
        created_at = 0;
        last_seen = 0;
      }
      ∷ [];
})

abbrev look : Request
look = record (request_with "" (("user_session", "t") ∷ [])) { method = "GET" }

abbrev her_device : DeviceItem
her_device = record {
  id = "dev_2";
  name = "laptop";
  client_version = "";
  last_seen = none;
  revoked_at = none;
  created_at = 0;
}

abbrev having_looked : World
having_looked = (handle_user_devices plain_sql look at_home).1

listed : Succeeds (handle_user_devices plain_sql look) at_home (her_device ∷ []) having_looked
unfolding handle_user_devices require_session load_session query statement try_exec
listed = refl

handle_user_devices-IsOwnItem_example :
    (token : String) × (s : WebSession) × (lookup "user_session" look.cookies ≡ some token)
    × IsLive at_home token "user" s
    × All (IsOwnItem s.subject_id having_looked.db) (her_device ∷ [])
handle_user_devices-IsOwnItem_example =
    handle_user_devices-IsOwnItem plain_sql look (her_device ∷ []) at_home having_looked
      (λ sort p ds h. h) listed
