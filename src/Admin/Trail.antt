-- ===== src/Admin/Trail.antt =====
-- internal/server/web_admin.go, webAudit: the audit log as the administrator sees it.
use verstak_sync_server.Prelude.{
  ℕ, String, Bool, true, none, some, List, [], ◌∷◌, ◌++◌, map, ◌==◌, ◌&&◌, ◌||◌, if◌then◌else◌,
  find, select, length,
}
use verstak_sync_server.Schema.{Db, UserRow, DeviceRow, AuditRow}
use verstak_sync_server.Server.Action.{M, ◌>>=◌, pure, query_all}
use verstak_sync_server.Admin.Lists.{WebList, finish_web_list, page_rows, audit_severity}
use verstak_sync_server.Admin.Views.{Sqlite, around, given}

abbrev pub matches_severity : Sqlite → String → String → Bool
matches_severity sql severity event =
    if severity == "error"
    then sql.like "%failed%" event || sql.like "%error%" event
    else if severity == "warning"
    then sql.like "%rate_limit%" event
    else true

abbrev pub matches_event : Sqlite → WebList → AuditRow → Bool
matches_event sql l a =
    given l.query (
      sql.like (around l.query) a.event_type
      || sql.like (around l.query) a.user_id
      || sql.like (around l.query) a.device_id)
    && given l.event (sql.like (around l.event) a.event_type)
    && given l.user (sql.like (around l.user) a.user_id)
    && matches_severity sql l.severity a.event_type

pub record WebAudit : Type 0 where
  pub event : String
  pub user : String
  pub device : String
  pub ip : String
  pub message : String
  pub severity : String
  pub at : ℕ

-- COALESCE(u.username,a.user_id,''), and the same of a device
abbrev pub user_name : Db → String → String
user_name db id = elim (find (λ (u : UserRow). u.id == id) db.users) [
  | none ↦ id
  | some u ↦ u.username
]

abbrev pub device_name : Db → String → String
device_name db id = elim (find (λ (d : DeviceRow). d.id == id) db.devices) [
  | none ↦ id
  | some d ↦ d.name
]

abbrev pub show_event : Db → AuditRow → WebAudit
unfolding audit_severity
show_event db a = record {
  event = a.event_type;
  user = user_name db a.user_id;
  device = device_name db a.device_id;
  ip = a.ip;
  message = a.message;
  severity = audit_severity a.event_type;
  at = a.created_at;
}

-- ORDER BY id DESC, where the ids grow in the order of insertion.
abbrev pub newest_first : List AuditRow → List AuditRow
newest_first [] = []
newest_first (a ∷ rows) = newest_first rows ++ a ∷ []

abbrev pub audit_rows : Sqlite → WebList → Db → List AuditRow
audit_rows sql l db = newest_first (select (matches_event sql l) db.audit_log)

abbrev pub count_events : Sqlite → WebList → Db → ℕ
count_events sql l db = length (select (matches_event sql l) db.audit_log)

abbrev pub page_of_events : Sqlite → WebList → Db → List WebAudit
page_of_events sql l db = map (show_event db) (page_rows l (audit_rows sql l db))

-- webAudit
unfoldable pub web_audit : Sqlite → WebList → M (List WebAudit × WebList)
unfolding finish_web_list
web_audit sql l = do
  total ← query_all (count_events sql l)
  let done = finish_web_list l total
  rows ← query_all (page_of_events sql done)
  pure (rows, done)
