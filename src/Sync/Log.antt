-- ===== src/Sync/Log.antt =====
-- The operation log: the rows of server_ops in the order of insertion.
use verstak_sync_server.Prelude.{
  ℕ, suc, ◌+◌, ◌≤◌, ◌<◌, ◌≡◌, refl, ◌∙◌, subst, String, Bool, false, ◌||◌, inl, inr, Bool-cases,
  some, List, [], ◌∷◌, ◌++◌, map, arith, eq_iff, select, length,
}
use mathlib.Core.List.{append-nil, append_assoc, map-append}
use verstak_sync_server.Schema.{Db, OpRow}
use verstak_sync_server.Device.Auth.{AuthenticatedDevice}
use verstak_sync_server.Sync.Contract.{PushOperation}
use verstak_sync_server.Sync.Push.Steps.{sequence_of, insert_by_sequence, order_by_sequence}
use verstak_sync_server.Sync.Push.Model.{
  push_all_db, push_all_db-log, numbered, fresh, ids_of, known,
}

-- Every row has a sequence, and they grow from above `lo` to at most `hi`.
abbrev pub Sequenced : ℕ → List OpRow → ℕ → Type 0
Sequenced lo [] hi = lo ≤ hi
Sequenced lo (r ∷ rs) hi =
    (r.server_sequence ≡ some (sequence_of r))
    × (lo < sequence_of r)
    × Sequenced (sequence_of r) rs hi

-- No two rows have one id.
abbrev pub Distinct : List String → Type 0
Distinct [] = Unit
Distinct (s ∷ ss) = (known s ss ≡ false) × Distinct ss

pub record LogIsValid (db : Db) : Type 0 where
  pub ordered : Sequenced 0 db.ops db.last_revision
  pub distinct : Distinct (ids_of db.ops)

pub Sequenced-mono :
    (lo lo' : ℕ) (rows : List OpRow) (hi : ℕ)
    → lo ≤ lo'
    → Sequenced lo' rows hi
    → Sequenced lo rows hi
Sequenced-mono lo lo' [] hi h s = omega arith
Sequenced-mono lo lo' (r ∷ rs) hi h s = (s.0, omega arith, s.2)

pub Sequenced-append :
    (lo mid hi : ℕ) (xs ys : List OpRow)
    → Sequenced lo xs mid
    → Sequenced mid ys hi
    → Sequenced lo (xs ++ ys) hi
Sequenced-append lo mid hi [] ys h k = Sequenced-mono lo mid ys hi h k
Sequenced-append lo mid hi (x ∷ xs) ys h k =
    (h.0, h.1, Sequenced-append (sequence_of x) mid hi xs ys h.2 k)

pub numbered-Sequenced :
    (scope : AuthenticatedDevice) (key : String) (now last : ℕ) (ops : List PushOperation)
    → Sequenced last (numbered scope key now (suc last) ops) (last + length ops)
unfolding numbered
numbered-Sequenced scope key now last [] = omega arith
numbered-Sequenced scope key now last (op ∷ ops) = (
  refl,
  omega arith,
  subst (Sequenced (suc last) (numbered scope key now (suc (suc last)) ops)) (omega arith)
      (numbered-Sequenced scope key now (suc last) ops),
)

pub Sequenced-select :
    (test : OpRow → Bool) (lo : ℕ) (rows : List OpRow) (hi : ℕ)
    → Sequenced lo rows hi
    → Sequenced lo (select test rows) hi
Sequenced-select test lo [] hi h = h
Sequenced-select test lo (r ∷ rs) hi h = elim (Bool-cases (test r)) [
  | inl e ↦ rw e (h.0, h.1, Sequenced-select test (sequence_of r) rs hi h.2)
  | inr e ↦ rw e (
      Sequenced-mono lo (sequence_of r) (select test rs) hi (omega arith)
        (Sequenced-select test (sequence_of r) rs hi h.2))
]

insert-first :
    (lo : ℕ) (r : OpRow) (rows : List OpRow) (hi : ℕ)
    → Sequenced (sequence_of r) rows hi
    → insert_by_sequence r rows ≡ r ∷ rows
unfolding insert_by_sequence
insert-first lo r [] hi h = refl
insert-first lo r (x ∷ xs) hi h = ground arith

-- ORDER BY leaves rows that are in order as they are.
pub order-Sequenced :
    (lo : ℕ) (rows : List OpRow) (hi : ℕ) → Sequenced lo rows hi → order_by_sequence rows ≡ rows
unfolding order_by_sequence
order-Sequenced lo [] hi h = refl
order-Sequenced lo (r ∷ rs) hi h =
    rw (order-Sequenced (sequence_of r) rs hi h.2) (insert-first lo r rs hi h.2)

known-append : (s : String) (xs ys : List String) → known s (xs ++ ys) ≡ (known s xs || known s ys)
known-append s [] ys = refl
known-append s (x ∷ xs) ys = ground (arith, known-append s xs ys)

Distinct-snoc :
    (xs : List String) (s : String) → Distinct xs → known s xs ≡ false → Distinct (xs ++ s ∷ [])
Distinct-snoc [] s h k = (refl, tt)
Distinct-snoc (x ∷ xs) s h k = (
  known-append x xs (s ∷ []) ∙ ground (arith, eq_iff x s, eq_iff s x),
  Distinct-snoc xs s h.1 (ground arith),
)

ids-numbered :
    (scope : AuthenticatedDevice) (key : String) (now last : ℕ) (ops : List PushOperation)
    → ids_of (numbered scope key now last ops) ≡ map (λ op. op.op_id) ops
unfolding numbered
ids-numbered scope key now last [] = refl
ids-numbered scope key now last (op ∷ ops) = rw (ids-numbered scope key now (suc last) ops)

fresh-Distinct :
    (ids : List String) (ops : List PushOperation)
    → Distinct ids
    → Distinct (ids ++ map (λ op. op.op_id) (fresh ids ops))
unfolding fresh
fresh-Distinct ids [] h = rw append-nil h
fresh-Distinct ids (op ∷ ops) h = elim (Bool-cases (known op.op_id ids)) [
  | inl e ↦ rw e (fresh-Distinct ids ops h)
  | inr e ↦ rw e (
      subst Distinct (append_assoc ids (op.op_id ∷ []) _)
        (fresh-Distinct (ids ++ op.op_id ∷ []) ops (Distinct-snoc ids op.op_id h e)))
]

-- A push keeps the log valid: every row numbered, the numbers growing and never above the counter,
-- and no id twice.
pub push-LogIsValid :
    (scope : AuthenticatedDevice) (key : String) (now : ℕ) (ops : List PushOperation) (db : Db)
    → LogIsValid db
    → LogIsValid (push_all_db scope key now ops db)
push-LogIsValid scope key now ops db v =
    let (rows, count) = push_all_db-log scope key now ops db in
    record {
      ordered =
          rw (rows, count)
            (Sequenced-append 0 db.last_revision _ db.ops _ v.ordered
              (numbered-Sequenced scope key now db.last_revision (fresh (ids_of db.ops) ops)));
      distinct =
          rw
            (
              rows,
              map-append (λ (r : OpRow). r.op_id) db.ops,
              ids-numbered scope key now (suc db.last_revision) (fresh (ids_of db.ops) ops),
            )
            (fresh-Distinct (ids_of db.ops) ops v.distinct);
    }
