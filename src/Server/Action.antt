-- ===== src/Server/Action.antt =====
-- A handler is an action: it may stop early with the answer that it has written, and what it
-- has changed by then stays changed. A statement of database/sql may fail at any time; a failed
-- one changes nothing.
use verstak_sync_server.Prelude.{
  suc, String, Bool, Option, none, some, if◌then◌else◌, List, [], ◌∷◌,
}
use verstak_sync_server.Schema.{Db}
use verstak_sync_server.Server.World.{World}
use verstak_sync_server.Server.Reply.{Reply, internal_error}

pub data Exit {ℓ} (A : Type ℓ) : Type ℓ where
  ok : A → Exit A
  halt : Reply → Exit A

abbrev pub M {ℓ} : Type ℓ → Type ℓ
M A = World → Exit A × World

-- What comes after an action, once it has run.
abbrev pub continue {ℓ κ} : {A : Type ℓ} {B : Type κ} → (A → M B) → Exit A × World → Exit B × World
continue f (ok a, w) = f a w
continue f (halt reply, w) = (halt reply, w)

infixl 5 ◌>>=◌ ◌>>◌
abbrev pub ◌>>=◌ {ℓ κ} : {A : Type ℓ} {B : Type κ} → M A → (A → M B) → M B
◌>>=◌ m f w = continue f (m w)

abbrev pub ◌>>◌ {ℓ} : {B : Type ℓ} → M (Unit {0}) → M B → M B
m >> k = m >>= λ _. k

abbrev pub pure {ℓ} : {A : Type ℓ} → A → M A
pure a w = (ok a, w)

abbrev pub stop {ℓ} : {A : Type ℓ} → Reply → M A
stop reply w = (halt reply, w)

abbrev pub gets {ℓ} : {A : Type ℓ} → (World → A) → M A
gets f w = (ok (f w), w)

-- `if bad { write reply; return }`
abbrev pub stop_if : Bool → Reply → M (Unit {0})
stop_if bad reply w = (if bad then halt reply else ok tt, w)

abbrev pub or_stop {ℓ} : {A : Type ℓ} → Option A → Reply → M A
or_stop none reply = stop reply
or_stop (some a) reply = pure a

-- Does the next statement fail?
abbrev pub tick : M Bool
tick w = (ok (w.faults w.step), record w { step = suc w.step })

-- A statement with its answer; a failure ends the request with status 500.
unfoldable pub statement {ℓ} : {A : Type ℓ} → (Db → A × Db) → M A
statement f w =
    if w.faults w.step
    then (halt internal_error, record w { step = suc w.step })
    else (ok (f w.db).0, record w { step = suc w.step; db = (f w.db).1 })

abbrev pub exec : (Db → Db) → M (Unit {0})
exec f = statement (λ db. (tt, f db))

-- A query of many rows, or of an aggregate, which always has an answer.
abbrev pub query_all {ℓ} : {A : Type ℓ} → (Db → A) → M A
query_all f = statement (λ db. (f db, db))

-- An INSERT that a UNIQUE or PRIMARY KEY constraint may refuse.
unfoldable pub exec_unique : (Db → Bool) → Reply → (Db → Db) → M (Unit {0})
exec_unique clash taken f w =
    if w.faults w.step
    then (halt internal_error, record w { step = suc w.step })
    else if clash w.db
    then (halt taken, record w { step = suc w.step })
    else (ok tt, record w { step = suc w.step; db = f w.db })

-- An INSERT of a page, with answers of its own.
unfoldable pub exec_unique_or : (Db → Bool) → Reply → Reply → (Db → Db) → M (Unit {0})
exec_unique_or clash taken failed f w =
    if w.faults w.step
    then (halt failed, record w { step = suc w.step })
    else if clash w.db
    then (halt taken, record w { step = suc w.step })
    else (ok tt, record w { step = suc w.step; db = f w.db })

-- A handler that has its own answer for what stops a part of it.
abbrev pub answer_by {ℓ} : {A : Type ℓ} → (Reply → Reply) → Exit A × World → Exit A × World
answer_by f (ok a, w) = (ok a, w)
answer_by f (halt reply, w) = (halt (f reply), w)

abbrev pub answering {ℓ} : {A : Type ℓ} → (Reply → Reply) → M A → M A
answering f m w = answer_by f (m w)

-- The statements of a loop that a failure ends.
abbrev pub exec_all : List (Db → Db) → M (Unit {0})
exec_all [] = pure tt
exec_all (f ∷ fs) = exec f >> exec_all fs

-- The same where the source ignores a failure.
unfoldable pub try_exec : (Db → Db) → M (Unit {0})
try_exec f w =
    if w.faults w.step
    then (ok tt, record w { step = suc w.step })
    else (ok tt, record w { step = suc w.step; db = f w.db })

-- A single-row query: a row, sql.ErrNoRows, or another error.
pub data Row {ℓ} (A : Type ℓ) : Type ℓ where
  row : A → Row A
  no_rows : Row A
  broken : Row A

abbrev pub to_row {ℓ} : {A : Type ℓ} → Option A → Row A
to_row none = no_rows
to_row (some a) = row a

unfoldable pub query {ℓ} : {A : Type ℓ} → (Db → Option A) → M (Row A)
query f w =
    if w.faults w.step
    then (ok broken, record w { step = suc w.step })
    else (ok (to_row (f w.db)), record w { step = suc w.step })

-- The row, one answer for a missing row and one for a failure.
abbrev pub row_or {ℓ} : {A : Type ℓ} → Row A → Reply → Reply → M A
row_or (row a) missing failed = pure a
row_or no_rows missing failed = stop missing
row_or broken missing failed = stop failed

-- The next text from the random source.
abbrev pub draw : M String
draw w = (ok (w.draws w.drawn), record w { drawn = suc w.drawn })

-- Begin, the body, Commit; `defer tx.Rollback()` undoes the body if it stops or Commit fails.
abbrev pub begin : M (Unit {0})
begin w = exec (λ db. db) w

abbrev pub settle {ℓ} : {A : Type ℓ} → Db → Exit A × World → Exit A × World
settle before (halt reply, w) = (halt reply, record w { db = before })
settle before (ok a, w) =
    if w.faults w.step
    then (halt internal_error, record w { step = suc w.step; db = before })
    else (ok a, record w { step = suc w.step })

unfoldable pub transaction {ℓ} : {A : Type ℓ} → M A → M A
transaction m w = settle w.db ((begin >> m) w)

-- The whole request: the answer, however it was reached, and the state after it.
abbrev pub reply_of : Exit Reply → Reply
reply_of (ok reply) = reply
reply_of (halt reply) = reply

abbrev pub answer : M Reply → World → Reply × World
answer m w = (reply_of (m w).0, (m w).1)
