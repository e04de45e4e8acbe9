-- ===== src/Admin/Confirmed.antt =====
-- What a form of the administrator's pages has shown when it has changed anything.
use verstak_sync_server.Prelude.{ℕ, ◌≡◌, String, true, List, [], ◌⊎◌}
use verstak_sync_server.Schema.{Db}
use verstak_sync_server.Config.{Config}
use verstak_sync_server.Config.Normalize.{check_admin}
use verstak_sync_server.Server.World.{World, OneTimeWebSecret}
use verstak_sync_server.Server.Reply.{Reply}
use verstak_sync_server.Server.Request.{Request, value_of}
use verstak_sync_server.Session.Store.{WebSession}

-- All that the server keeps but the sessions: the other tables, the settings, the passwords that
-- wait, and the stored files.
abbrev pub others : World → Db × Config × List (String × OneTimeWebSecret) × List (String × List ℕ)
others w = (record w.db { sessions = [] }, w.cfg, w.web_secrets, w.files)

-- The password was given again, or the form is the one that changes a user's name and address.
abbrev pub IsConfirmed : Request → World → WebSession → Type 0
IsConfirmed r w s =
    (value_of "action" r.form ≡ "edit-user")
    ⊎ (check_admin w.host s.subject_id (value_of "password" r.form) w.cfg ≡ true)
