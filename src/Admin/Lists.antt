-- ===== src/Admin/Lists.antt =====
-- internal/server/web_admin.go: the pages of a long list. A page number or a size that is not a
-- positive Go integer is passed over before.
use verstak_sync_server.Prelude.{
  ℕ, ◌+◌, ◌-◌, ◌*◌, ◌/◌, String, Option, none, some, ◌&&◌, ◌||◌, ltb, leb, eqb, if◌then◌else◌,
  trim_space, len, contains, List, take, drop,
}
use verstak_sync_server.Server.Request.{Request, value_of}

pub record WebList : Type 0 where
  pub query : String
  pub status : String
  pub sort : String
  pub user : String
  pub vault : String
  pub version : String
  pub event : String
  pub severity : String
  pub page : ℕ
  pub per_page : ℕ
  pub total : ℕ
  pub pages : ℕ
  pub previous : ℕ
  pub next : ℕ

-- The function `trim`; `first_bytes` is Go's slice of a text's first bytes.
abbrev pub trim_value : (ℕ → String → String) → String → String
trim_value first_bytes text =
    let value = trim_space text in if ltb 160 (len value) then first_bytes 160 value else value

abbrev pub page_number : Option ℕ → ℕ
page_number none = 1
page_number (some v) = if ltb 0 v then v else 1

abbrev pub page_size : Option ℕ → ℕ
page_size none = 25
page_size (some v) = if ltb 0 v && leb v 100 then v else 25

-- webListFromRequest; `atoi` is strconv.Atoi, a negative number being none like an error.
unfoldable pub web_list_from_request :
    (ℕ → String → String) → (String → Option ℕ) → Request → WebList
web_list_from_request first_bytes atoi r = record {
  query = trim_value first_bytes (value_of "q" r.params);
  status = trim_value first_bytes (value_of "status" r.params);
  sort = trim_value first_bytes (value_of "sort" r.params);
  user = trim_value first_bytes (value_of "user" r.params);
  vault = trim_value first_bytes (value_of "vault" r.params);
  version = trim_value first_bytes (value_of "version" r.params);
  event = trim_value first_bytes (value_of "event" r.params);
  severity = trim_value first_bytes (value_of "severity" r.params);
  page = page_number (atoi (value_of "page" r.params));
  per_page = page_size (atoi (value_of "per_page" r.params));
  total = 0;
  pages = 0;
  previous = 0;
  next = 0;
}

abbrev pub page_count : ℕ → ℕ → ℕ
page_count per_page total =
    let pages = ((total + per_page) - 1) / per_page in if eqb pages 0 then 1 else pages

-- finishWebList
unfoldable pub finish_web_list : WebList → ℕ → WebList
finish_web_list l total =
    let pages = page_count l.per_page total in
    let page = if ltb pages l.page then pages else l.page in
    record l {
      total = total;
      pages = pages;
      page = page;
      previous = if ltb 1 page then page - 1 else l.previous;
      next = if ltb page pages then page + 1 else l.next;
    }

-- LIMIT ? OFFSET ?, with the arguments that webAdminUsers, webAdminDevices and webAudit give.
abbrev pub page_rows {ℓ} : {A : Type ℓ} → WebList → List A → List A
page_rows l rows = take l.per_page (drop ((l.page - 1) * l.per_page) rows)

-- auditSeverity
unfoldable pub audit_severity : String → String
unfolding contains
audit_severity event =
    if contains event "failed" || contains event "error"
    then "error"
    else if contains event "rate_limit" || contains event "revoked" || contains event "blocked"
    then "warning"
    else "info"
