-- ===== src/Sync/Answers.antt =====
-- What handleSyncPull answers, and which page sizes and requests pass.
use verstak_sync_server.Prelude.{
  ℕ, ◌≡◌, refl, sym, ap, ◌∙◌, Bool, true, false, arith, pos, is_negative, magnitude, List, [], ◌∷◌,
  map, take, select, length, ltb, ◌==◌, ◌&&◌, max, All, some,
}
use verstak_sync_server.Schema.{Db, OpRow}
use verstak_sync_server.Server.World.{World}
use verstak_sync_server.Server.Reply.{PullResponse, OpDto, pulled, json_ok}
use verstak_sync_server.Server.Action.{answer, statement}
use verstak_sync_server.Server.Faults.{quiet}
use verstak_sync_server.Device.Auth.{AuthenticatedDevice}
use verstak_sync_server.Sync.Contract.{PullRequest, pull_page_limit}
use verstak_sync_server.Sync.Pull.{
  pull_scoped, is_pending, to_dto, last_sequence, max_sequence, server_sequence, pending_rows,
  make_page,
}
use verstak_sync_server.Sync.Push.Steps.{sequence_of, in_scope}
use verstak_sync_server.Sync.Log.{LogIsValid, Sequenced, Sequenced-select}
use verstak_sync_server.Sync.Paging.{page, page-fields, pending-eq-select}

-- The operations of the vault of a device after a sequence number, in the order of the log.
abbrev pub to_pull : AuthenticatedDevice → ℕ → Db → List OpRow
to_pull scope since db =
    select
      (λ r.
        (r.user_id == scope.user_id) && (r.vault_id == scope.vault_id) && ltb since (sequence_of r))
      db.ops

-- What a device gets to see of a row.
abbrev pub entry_of : OpRow → OpDto
entry_of r = record {
  op_id = r.op_id;
  server_sequence = sequence_of r;
  device_id = r.device_id;
  entity_type = r.entity_type;
  entity_id = r.entity_id;
  op_type = r.op_type;
  payload_json = r.payload_json;
  created_at = r.created_at;
}

-- The sequence number of the last row, or the one given where there is none.
abbrev pub last_of : ℕ → List OpRow → ℕ
last_of since [] = since
last_of since (r ∷ rs) = last_of (sequence_of r) rs

-- The first `limit` operations after the cursor, where they end, whether more follow, and where
-- the operations of the vault end.
abbrev pub promised_page : AuthenticatedDevice → Db → ℕ → ℕ → PullResponse
promised_page scope db since limit =
    let rows = to_pull scope since db in
    record {
      server_sequence = last_of 0 (to_pull scope 0 db);
      page_last_sequence = last_of since (take limit rows);
      has_more = ltb limit (length rows);
      ops = map entry_of (take limit rows);
    }

select-same {ℓ} :
    {A : Type ℓ} (p q : A → Bool) (xs : List A)
    → All (λ x. p x ≡ q x) xs
    → select p xs ≡ select q xs
select-same p q [] h = refl
select-same p q (x ∷ xs) (h, hs) = rw (h, select-same p q xs hs) refl

-- The condition of `to_pull`.
abbrev is_ahead : AuthenticatedDevice → ℕ → OpRow → Bool
is_ahead scope since r =
    (r.user_id == scope.user_id) && (r.vault_id == scope.vault_id) && ltb since (sequence_of r)

pending-eq-ahead :
    (scope : AuthenticatedDevice) (since n : ℕ) (r : OpRow)
    → r.server_sequence ≡ some n
    → is_pending scope (pos since) r ≡ is_ahead scope since r
pending-eq-ahead scope since n r h = rw h (ground arith)

every_pending :
    (scope : AuthenticatedDevice) (since lo : ℕ) (rows : List OpRow) (hi : ℕ)
    → Sequenced lo rows hi
    → All (λ r. is_pending scope (pos since) r ≡ is_ahead scope since r) rows
every_pending scope since lo [] hi s = tt
every_pending scope since lo (r ∷ rs) hi s = (
  pending-eq-ahead scope since (sequence_of r) r s.0,
  every_pending scope since (sequence_of r) rs hi s.2,
)

-- In a valid log every row has a positive sequence, so that all rows of the vault are after 0.
every_ahead :
    (scope : AuthenticatedDevice) (lo : ℕ) (rows : List OpRow) (hi : ℕ)
    → Sequenced lo rows hi
    → All (λ r. in_scope scope r ≡ is_ahead scope 0 r) rows
every_ahead scope lo [] hi s = tt
every_ahead scope lo (r ∷ rs) hi s =
    let after : ltb 0 (sequence_of r) ≡ true = ground (arith, s.1) in
    (rw after (ground arith), every_ahead scope (sequence_of r) rs hi s.2)

last_sequence-eq-last_of :
    (since : ℕ) (rows : List OpRow) → last_sequence since (map to_dto rows) ≡ last_of since rows
unfolding last_sequence
last_sequence-eq-last_of since [] = refl
last_sequence-eq-last_of since (r ∷ rs) = last_sequence-eq-last_of (sequence_of r) rs

max_sequence-last :
    (lo : ℕ) (rows : List OpRow) (hi : ℕ)
    → Sequenced lo rows hi
    → last_of lo rows ≡ max lo (max_sequence rows)
unfolding max_sequence
max_sequence-last lo [] hi s = omega arith
max_sequence-last lo (r ∷ rs) hi s =
    let rest = max_sequence-last (sequence_of r) rs hi s.2 in omega (arith, rest, s.1)

server_sequence-last_of :
    (scope : AuthenticatedDevice) (db : Db)
    → LogIsValid db
    → server_sequence scope db ≡ last_of 0 (to_pull scope 0 db)
unfolding server_sequence
server_sequence-last_of scope db v =
    let bare : (n : ℕ) → n ≡ max 0 n = λ n. omega arith in
    bare (max_sequence (select (in_scope scope) db.ops))
    ∙ sym (
        max_sequence-last 0 _ db.last_revision
          (Sequenced-select (in_scope scope) 0 db.ops db.last_revision v.ordered))
    ∙ ap (last_of 0) (
        select-same (in_scope scope) (is_ahead scope 0) db.ops
          (every_ahead scope 0 db.ops db.last_revision v.ordered))

same_page :
    {p q : PullResponse}
    → p.server_sequence ≡ q.server_sequence
    → p.page_last_sequence ≡ q.page_last_sequence
    → p.has_more ≡ q.has_more
    → p.ops ≡ q.ops
    → p ≡ q
same_page a b c d i = record {
  server_sequence = a i;
  page_last_sequence = b i;
  has_more = c i;
  ops = d i;
}

page-promised :
    (scope : AuthenticatedDevice) (db : Db) (since limit : ℕ)
    → LogIsValid db
    → page scope db since limit ≡ promised_page scope db since limit
unfolding make_page
page-promised scope db since limit v =
    let rows : pending_rows scope (pos since) db ≡ to_pull scope since db =
      pending-eq-select scope (pos since) db v
      ∙ select-same (is_pending scope (pos since)) (is_ahead scope since) db.ops
          (every_pending scope since 0 db.ops db.last_revision v.ordered) in
    let f = page-fields scope db since limit in
    let short = λ (l : List OpRow). take limit l in
    same_page (server_sequence-last_of scope db v)
      (f.2
        ∙ last_sequence-eq-last_of since (take limit (pending_rows scope (pos since) db))
        ∙ ap (λ l. last_of since (short l)) rows)
      (f.1 ∙ ap (λ (l : List OpRow). ltb limit (length l)) rows)
      (f.0 ∙ ap (λ (l : List OpRow). map entry_of (short l)) rows)

-- Where the log is valid and the database does not fail, a pull of an authenticated device, with a
-- cursor and a page size that are not negative, is answered with the first operations of its vault
-- after the cursor, as many as pullPageLimit allows, in the order of the log and each with its own
-- fields, with the number of the last of them (the cursor if there is none), whether more follow,
-- and the number of the last operation of the vault. After the authentication it changes no table.
pub pull_answers_page :
    (scope : AuthenticatedDevice) (req : PullRequest) (w : World) (since : ℕ)
    → LogIsValid w.db
    → req.since_sequence ≡ pos since
    → is_negative req.page_limit ≡ false
    → let (reply, after) = answer (pull_scoped scope req) (quiet w) in
      let limit = magnitude (pull_page_limit w.cfg.limits req.page_limit) in
      (reply ≡ json_ok (pulled (promised_page scope w.db since limit))) × (after.db ≡ w.db)
unfolding pull_scoped statement
pull_answers_page scope req w since v e h =
    let limit = magnitude (pull_page_limit w.cfg.limits req.page_limit) in
    rw (e, h)
      (ap (λ (p : PullResponse). json_ok (pulled p)) (page-promised scope w.db since limit v), refl)
