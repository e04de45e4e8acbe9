-- ===== src/Tests/Lists.antt =====
-- The administrator's lists at concrete inputs.
use verstak_sync_server.Prelude.{
  ℕ, ◌≡◌, refl, true, List, [], ◌∷◌, ◌<◌, ◌-◌, ◌*◌, ◌+◌, ◌≤◌, length, map, arith,
}
use verstak_sync_server.Schema.{Db, AuditRow, empty_db}
use mathlib.Core.List.{Perm}
use mathlib.Core.List.Perm
use verstak_sync_server.Server.Action.{statement}
use verstak_sync_server.Server.Faults.{quiet}
use verstak_sync_server.Admin.Lists.{WebList, finish_web_list}
use verstak_sync_server.Admin.Pagination.{pages_up_to, pages_up_to-all, finish_web_list_bounds}
use verstak_sync_server.Admin.Views.{Sqlite}
use verstak_sync_server.Admin.Trail.{web_audit, show_event}
use verstak_sync_server.Admin.Browse.{browse}
use verstak_sync_server.Tests.Fixtures.{world_of}
use verstak_sync_server.Tests.Access.{device}

abbrev far_page : WebList
far_page = record {
  query = "";
  status = "";
  sort = "";
  user = "";
  vault = "";
  version = "";
  event = "";
  severity = "";
  page = 9;
  per_page = 2;
  total = 0;
  pages = 0;
  previous = 0;
  next = 0;
}

abbrev five : List ℕ
five = 1 ∷ 2 ∷ 3 ∷ 4 ∷ 5 ∷ []

-- A page beyond the last is the last one.
last_page : (finish_web_list far_page 5).page ≡ 3
unfolding finish_web_list
last_page = refl

pages_up_to-all_example :
    pages_up_to far_page (finish_web_list far_page (length five)).pages five ≡ five
pages_up_to-all_example = pages_up_to-all far_page five (omega arith) (omega arith)

finish_web_list_bounds_example :
    let m = finish_web_list far_page 5 in
    (0 < m.page)
    × (m.page ≤ m.pages)
    × (9 ≤ m.pages → m.page ≡ 9)
    × (m.pages < 9 → m.page ≡ m.pages)
    × (5 ≤ m.pages * m.per_page)
    × (0 < 5 → (m.page - 1) * m.per_page < 5)
    × (1 < m.page → m.previous + 1 ≡ m.page)
    × (m.page < m.pages → m.next ≡ m.page + 1)
    × (m.page ≤ 1 → m.previous ≡ 0)
    × (m.pages ≤ m.page → m.next ≡ 0)
finish_web_list_bounds_example = finish_web_list_bounds far_page 5 (omega arith) (omega arith)

-- LIKE is true of any text, and the rows stay in the order of insertion.
abbrev pub plain_sql : Sqlite
plain_sql = record {
  like = λ pattern text. true;
  order_users = λ sort us. us;
  order_devices = λ sort ds. ds;
}

abbrev event : ℕ → AuditRow
event at = record {
  event_type = "login_failed";
  user_id = "u1";
  device_id = "dev_2";
  ip = "192.0.2.1";
  message = "";
  created_at = at;
}

abbrev audited : Db
audited = record empty_db {
  devices = device "dev_1" "#one" ∷ device "dev_2" "#two" ∷ [];
  audit_log = event 1 ∷ event 2 ∷ event 3 ∷ [];
}

-- The second page of the audit log, two on a page, is the oldest event.
oldest :
    browse (web_audit plain_sql) far_page (quiet (world_of audited)) 2
    ≡ map (show_event audited) (event 3 ∷ event 2 ∷ event 1 ∷ [])
unfolding web_audit statement finish_web_list
oldest = refl
