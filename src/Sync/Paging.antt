-- ===== src/Sync/Paging.antt =====
-- The pages of handleSyncPull over a valid log.
use verstak_sync_server.Prelude.{
  ℕ, zero, suc, ◌+◌, ◌≤◌, ◌<◌, ◌≡◌, refl, sym, ap, ◌∙◌, true, inl, inr, Bool-cases, List, [], ◌∷◌,
  ◌++◌, map, arith, tests, ltb, if◌then◌else◌, ℤ, pos, select, take, drop, take_all, take-take,
  map-take, length, length-map, length-take, length-drop, take-append-drop, max, select-select_and,
}
use mathlib.Core.List.{map-append}
use native.Mathlib.Numerals.{add-one}
use verstak_sync_server.Schema.{Db, OpRow}
use verstak_sync_server.Server.Reply.{OpDto, PullResponse}
use verstak_sync_server.Device.Auth.{AuthenticatedDevice}
use verstak_sync_server.Sync.Push.Steps.{sequence_of, sequence_above, in_scope}
use verstak_sync_server.Sync.Pull.{
  to_dto, pending_rows, fetch_rows, is_pending, last_sequence, make_page, server_sequence,
}
use verstak_sync_server.Sync.Log.{Sequenced, LogIsValid, Sequenced-select, order-Sequenced}

-- Rows above a cursor that lies below all of them.
above-all :
    (lo since : ℕ) (rows : List OpRow) (hi : ℕ)
    → since ≤ lo
    → Sequenced lo rows hi
    → select (sequence_above (pos since)) rows ≡ rows
above-all lo since [] hi h s = refl
above-all lo since (r ∷ rs) hi h s = ground (arith, above-all (sequence_of r) since rs hi)

last-ge :
    (since n : ℕ) (rows : List OpRow) (hi : ℕ)
    → Sequenced since rows hi
    → since ≤ last_sequence since (map to_dto (take n rows))
unfolding last_sequence
last-ge since zero rows hi s = omega arith
last-ge since (suc n) [] hi s = omega arith
last-ge since (suc n) (r ∷ rs) hi s = omega (arith, last-ge (sequence_of r) n rs hi s.2)

-- What lies above the last row of a prefix is the rest.
above-last :
    (since n : ℕ) (rows : List OpRow) (hi : ℕ)
    → Sequenced since rows hi
    → select (sequence_above (pos (last_sequence since (map to_dto (take n rows))))) rows
      ≡ drop n rows
unfolding last_sequence
above-last since zero rows hi s = above-all since since rows hi (omega arith) s
above-last since (suc n) [] hi s = refl
above-last since (suc n) (r ∷ rs) hi s =
    ground (arith, last-ge (sequence_of r) n rs hi s.2, above-last (sequence_of r) n rs hi s.2)

above-narrow :
    (since k : ℕ) (r : OpRow)
    → since ≤ k
    → sequence_above (pos k) r ≡ true
    → sequence_above (pos since) r ≡ true
above-narrow since k r h e = ground arith

pending-narrow :
    (scope : AuthenticatedDevice) (since k : ℕ) (rows : List OpRow)
    → since ≤ k
    → select (sequence_above (pos k)) (select (is_pending scope (pos since)) rows)
      ≡ select (is_pending scope (pos k)) rows
pending-narrow scope since k rows h =
    select-select_and (in_scope scope) (sequence_above (pos k)) (sequence_above (pos since)) rows
      (λ r. above-narrow since k r h)

Sequenced-raise :
    (lo : ℕ) (rows : List OpRow) (hi hi' : ℕ)
    → hi ≤ hi'
    → Sequenced lo rows hi
    → Sequenced lo rows hi'
Sequenced-raise lo [] hi hi' h s = omega arith
Sequenced-raise lo (r ∷ rs) hi hi' h s = (s.0, s.1, Sequenced-raise (sequence_of r) rs hi hi' h s.2)

pending-above :
    (scope : AuthenticatedDevice) (since : ℕ) (r : OpRow)
    → is_pending scope (pos since) r ≡ true
    → since < sequence_of r
pending-above scope since r e = ground arith

pending-Sequenced :
    (scope : AuthenticatedDevice) (since lo : ℕ) (rows : List OpRow) (hi : ℕ)
    → Sequenced lo rows hi
    → Sequenced since (select (is_pending scope (pos since)) rows) (max since hi)
pending-Sequenced scope since lo [] hi s = omega arith
pending-Sequenced scope since lo (r ∷ rs) hi s =
    elim (Bool-cases (is_pending scope (pos since) r)) [
      | inl e ↦ rw e (
        s.0,
        pending-above scope since r e,
        Sequenced-raise (sequence_of r) _ hi (max since hi) (omega arith)
            (Sequenced-select (is_pending scope (pos since)) (sequence_of r) rs hi s.2),
      )
      | inr e ↦ rw e (pending-Sequenced scope since (sequence_of r) rs hi s.2)
    ]

-- The rows of a scope after a cursor, in the order of the log.
pub pending-eq-select :
    (scope : AuthenticatedDevice) (since : ℤ) (db : Db)
    → LogIsValid db
    → pending_rows scope since db ≡ select (is_pending scope since) db.ops
unfolding pending_rows
pending-eq-select scope since db v =
    order-Sequenced 0 _ db.last_revision
      (Sequenced-select (is_pending scope since) 0 db.ops db.last_revision v.ordered)

module _ (scope : AuthenticatedDevice) (db : Db) (v : LogIsValid db) (since limit : ℕ) where
  -- Where the log is valid, the cursor after a page leaves to be read what follows the page.
  pub rest-after_page :
      pending_rows scope
        (pos (last_sequence since (map to_dto (take limit (pending_rows scope (pos since) db)))))
        db
      ≡ drop limit (pending_rows scope (pos since) db)
  rest-after_page =
      let rows = select (is_pending scope (pos since)) db.ops in
      let ordered = pending-Sequenced scope since 0 db.ops db.last_revision v.ordered in
      let cursor = last_sequence since (map to_dto (take limit rows)) in
      rw (pending-eq-select scope (pos since) db v) (
        pending-eq-select scope (pos cursor) db v
        ∙ sym (pending-narrow scope since cursor db.ops (last-ge since limit rows _ ordered))
        ∙ above-last since limit rows _ ordered)

abbrev pub page : AuthenticatedDevice → Db → ℕ → ℕ → PullResponse
page scope db since limit =
    make_page (server_sequence scope db) since limit (fetch_rows scope (pos since) limit db)

length-fetched :
    (limit : ℕ) (rows : List OpRow)
    → ltb limit (length (map to_dto (take (limit + 1) rows))) ≡ ltb limit (length rows)
length-fetched limit rows =
    ground (arith, length-map to_dto (take (limit + 1) rows), length-take (limit + 1) rows)

kept_rows :
    (limit : ℕ) (rows : List OpRow)
    → let fetched = map to_dto (take (limit + 1) rows) in
      (if ltb limit (length fetched) then take limit fetched else fetched)
      ≡ map to_dto (take limit rows)
kept_rows limit rows = elim (Bool-cases (ltb limit (length rows))) [
  | inl e ↦
      rw (length-fetched limit rows, e)
        (map-take to_dto limit (take (limit + 1) rows)
          ∙ rw (add-one limit) (ap (map to_dto) (take-take limit rows)))
  | inr e ↦
      let short : length rows ≤ limit = ground arith in
      rw (length-fetched limit rows, e)
        (ap (map to_dto)
          (take_all (limit + 1) rows (omega arith) ∙ sym (take_all limit rows short)))
]

-- The fields of a page: one row more than the page is fetched, to see whether more is left.
pub page-fields :
    (scope : AuthenticatedDevice) (db : Db) (since limit : ℕ)
    → let rows = pending_rows scope (pos since) db in
      let p = page scope db since limit in
      (p.ops ≡ map to_dto (take limit rows))
      × (p.has_more ≡ ltb limit (length rows))
      × (p.page_last_sequence ≡ last_sequence since (map to_dto (take limit rows)))
unfolding make_page fetch_rows
page-fields scope db since limit =
    let rows = pending_rows scope (pos since) db in
    (
      kept_rows limit rows,
      length-fetched limit rows,
      ap (last_sequence since) (kept_rows limit rows),
    )

-- A client that pulls page after page from a cursor, as the README tells it to.
unfoldable pub drain : ℕ → AuthenticatedDevice → Db → ℕ → ℕ → List OpDto
drain zero scope db limit since = []
drain (suc fuel) scope db limit since =
    let p = page scope db since limit in
    let rest = drain fuel scope db limit p.page_last_sequence in
    if p.has_more then p.ops ++ rest else p.ops

drain_step :
    (scope : AuthenticatedDevice) (db : Db) (limit since : ℕ) (rest : List OpDto)
    → let rows = pending_rows scope (pos since) db in
      (ltb limit (length rows) ≡ true → rest ≡ map to_dto (drop limit rows))
      → (if (page scope db since limit).has_more
          then (page scope db since limit).ops ++ rest
          else (page scope db since limit).ops)
        ≡ map to_dto rows
drain_step scope db limit since rest h =
    let rows = pending_rows scope (pos since) db in
    let f = page-fields scope db since limit in
    elim (Bool-cases (ltb limit (length rows))) [
      | inl e ↦
          rw (f.1, f.0, e, h e)
            (sym (map-append to_dto (take limit rows) (drop limit rows))
              ∙ ap (map to_dto) (take-append-drop limit rows))
      | inr e ↦
          let short : length rows ≤ limit = ground arith in
          rw (f.1, f.0, e) (ap (map to_dto) (take_all limit rows short))
    ]

drain_rest :
    (fuel : ℕ) (scope : AuthenticatedDevice) (db : Db) (limit since : ℕ)
    → LogIsValid db
    → ((k : ℕ)
        → LogIsValid db
        → 0 < limit
        → length (pending_rows scope (pos k) db) < fuel
        → drain fuel scope db limit k ≡ map to_dto (pending_rows scope (pos k) db))
    → 0 < limit
    → length (pending_rows scope (pos since) db) < suc fuel
    → ltb limit (length (pending_rows scope (pos since) db)) ≡ true
    → drain fuel scope db limit (page scope db since limit).page_last_sequence
      ≡ map to_dto (drop limit (pending_rows scope (pos since) db))
drain_rest fuel scope db limit since v ih h enough more =
    let rows = pending_rows scope (pos since) db in
    let f = page-fields scope db since limit in
    let left = rest-after_page scope db v since limit in
    let fewer : length (drop limit rows) < fuel = omega (tests, length-drop limit rows) in
    rw (f.2) (ih _ v h (rw left fewer) ∙ ap (map to_dto) left)

-- Where the log is valid and the fuel exceeds the number of operations to come, pulling pages of
-- at least one operation until `has_more` is false gives every operation of the
-- scope after the cursor, once and in the order of the sequence.
pub drain_complete :
    (fuel : ℕ) (scope : AuthenticatedDevice) (db : Db) (limit since : ℕ)
    → LogIsValid db
    → 0 < limit
    → length (pending_rows scope (pos since) db) < fuel
    → drain fuel scope db limit since ≡ map to_dto (pending_rows scope (pos since) db)
unfolding drain
drain_complete zero scope db limit since v h enough = absurd (omega arith)
drain_complete (suc fuel) scope db limit since v h enough =
    drain_step scope db limit since _ (λ more.
      drain_rest fuel scope db limit since v (drain_complete fuel scope db limit) h enough more)
