-- ===== src/Admin/Browse.antt =====
-- The administrator's lists, browsed page by page with the handlers' own functions.
use verstak_sync_server.Prelude.{ℕ, zero, suc, List, [], ◌++◌, String}
use mathlib.Core.List.{Perm}
use mathlib.Core.List.Perm
use verstak_sync_server.Schema.{UserRow, DeviceRow}
use verstak_sync_server.Server.World.{World}
use verstak_sync_server.Server.Action.{M, Exit, ok, halt}
use verstak_sync_server.Admin.Lists.{WebList, finish_web_list}
use verstak_sync_server.Admin.Views.{Sqlite}

-- ORDER BY rearranges the rows: none is lost, added or repeated. It is a function of the rows, so
-- that two pages of the same rows are cut from the same order, also where rows tie.
abbrev pub Rearranges : Sqlite → Type 0
Rearranges sql =
    ((sort : String) (us : List UserRow) → Perm (sql.order_users sort us) us)
    × ((sort : String) (ds : List DeviceRow) → Perm (sql.order_devices sort ds) ds)

-- The rows of an answer.
abbrev pub shown {ℓ} : {A : Type ℓ} → Exit (List A × WebList) → List A
shown (ok (rows, l)) = rows
shown (halt reply) = []

module _ {ℓ} {A : Type ℓ} (view : WebList → M (List A × WebList)) (l : WebList) (w : World) where
  -- What the pages with the numbers from 1 to `n` show, asked for one after the other.
  abbrev pub browse : ℕ → List A
  browse zero = []
  browse (suc n) = browse n ++ shown (view (record l { page = suc n }) w).0

-- A number of the last page, as the lists show it.
abbrev pub pages_of : WebList → ℕ → ℕ
pages_of l total = (finish_web_list l total).pages
