-- ===== src/Tests/Storage.antt =====
-- Accounts and uploads at concrete inputs.
use verstak_sync_server.Prelude.{◌+◌, ◌≡◌, ◌≢◌, refl, true, false, none, [], ◌∷◌, eqb}
use verstak_sync_server.Schema.{Db, EmailTokenRow, empty_db}
use verstak_sync_server.Server.World.{World}
use verstak_sync_server.Server.Action.{ok, halt, exec_unique, statement, query, transaction}
use verstak_sync_server.Server.Success.{Succeeds}
use verstak_sync_server.Device.Auth.{AuthenticatedDevice}
use verstak_sync_server.Account.Tokens.{reset_password_with_token}
use verstak_sync_server.Account.Reset.{reset_password_with_token-once}
use verstak_sync_server.Blob.Store.{attach_blob, vault_used, user_used}
use verstak_sync_server.Blob.Quota.{HasRoom, attach_blob-quota}
use verstak_sync_server.Blob.Files.{attach_blob-halt}
use verstak_sync_server.Server.Reply.{internal_error}
use verstak_sync_server.Tests.Fixtures.{world_of}

abbrev reset_token : EmailTokenRow
reset_token = record {
  token_hash = "#r";
  user_id = "u1";
  purpose = "reset";
  expires_at = 500;
  created_at = 0;
}

abbrev account_db : Db
account_db = record empty_db {
  users =
      record {
        id = "u1";
        username = "ada";
        email = "ada@example.org";
        password_hash = "$old";
        confirmed = true;
        blocked = false;
        last_seen = none;
        created_at = 0;
      }
      ∷ [];
  email_tokens = reset_token ∷ [];
}

abbrev after_resetting : World
after_resetting = (reset_password_with_token "r" "new" (world_of account_db)).1

was_reset :
    Succeeds (reset_password_with_token "r" "new") (world_of account_db) "u1" after_resetting
unfolding reset_password_with_token transaction statement query
was_reset = refl

reset_password_with_token-once_example :
    reset_password_with_token "r" "other" after_resetting ≢ (ok "u1", after_resetting)
unfolding reset_password_with_token transaction statement query
reset_password_with_token-once_example =
    reset_password_with_token-once "r" "new" (world_of account_db) after_resetting "u1"
      ((λ e. refl, tt), tt) was_reset after_resetting after_resetting "other" "u1" refl refl

-- A server whose seventh statement, the Commit of an upload, fails.
abbrev failing_world : World
failing_world = record (world_of empty_db) { faults = λ n. eqb n 6; files = ("y", 8 ∷ []) ∷ [] }

abbrev owner : AuthenticatedDevice
owner = record { device_id = "dev_1"; user_id = "u1"; vault_id = "v1" }

upload_fails : (attach_blob owner "x" (1 ∷ 2 ∷ []) failing_world).0 ≡ halt internal_error
unfolding attach_blob transaction statement exec_unique query
upload_fails = refl

attach_blob-halt_example :
    ((attach_blob owner "x" (1 ∷ 2 ∷ []) failing_world).1.db ≡ failing_world.db)
    × ((attach_blob owner "x" (1 ∷ 2 ∷ []) failing_world).1.files ≡ failing_world.files)
attach_blob-halt_example =
    attach_blob-halt owner "x" (1 ∷ 2 ∷ []) failing_world internal_error upload_fails

abbrev uploaded_world : World
uploaded_world = (attach_blob owner "x" (1 ∷ 2 ∷ []) (world_of empty_db)).1

uploaded : Succeeds (attach_blob owner "x" (1 ∷ 2 ∷ [])) (world_of empty_db) tt uploaded_world
unfolding attach_blob transaction statement exec_unique query
uploaded = refl

attach_blob-quota_example :
    HasRoom owner 2 (world_of empty_db)
    × (vault_used "u1" "v1" uploaded_world.db.blob_refs ≡ 0 + 2)
    × (user_used "u1" uploaded_world.db.blob_refs ≡ 0 + 2)
attach_blob-quota_example =
    attach_blob-quota owner "x" (1 ∷ 2 ∷ []) (world_of empty_db) uploaded_world refl uploaded
