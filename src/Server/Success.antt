-- ===== src/Server/Success.antt =====
-- What is known when an action has succeeded, whatever the database did meanwhile.
use verstak_sync_server.Prelude.{
  suc, ◌≡◌, refl, ap, sym, subst, Bool, true, false, Bool-cases, inl, inr, ◌⊎◌, Option, none, some,
  arith,
}
use verstak_sync_server.Schema.{Db}
use verstak_sync_server.Server.World.{World}
use verstak_sync_server.Server.Reply.{Reply, internal_error}
use verstak_sync_server.Server.Action.{
  Exit, ok, halt, M, continue, ◌>>=◌, ◌>>◌, stop_if, statement, transaction, settle, begin, query,
  Row, row, no_rows, broken, to_row, row_or, or_stop, exec_unique,
}

-- From `w` the action ends well with `a`, in `w'`.
abbrev pub Succeeds {ℓ} : {A : Type ℓ} → M A → World → A → World → Type ℓ
Succeeds m w a w' = m w ≡ (ok a, w')

module _ {ℓ κ} {A : Type ℓ} {B : Type κ} (f : A → M B) (b : B) (w'' : World) where
  -- A run of two actions, split where the second one begins.
  abbrev pub Split : Exit A × World → Type (ℓ ⊔ κ)
  Split r = (a : A) × (w' : World) × (r ≡ (ok a, w')) × (f a w' ≡ (ok b, w''))

  Split-run : (r : Exit A × World) → continue f r ≡ (ok b, w'') → Split r
  Split-run (ok a, w') h = (a, w', refl, h)
  Split-run (halt e, w') h =
      let k : halt e ≡ ok b = ap (λ (p : Exit B × World). p.0) h in absurd (ground arith)

  pub bind-Succeeds : (m : M A) (w : World) → Succeeds (m >>= f) w b w'' → Split (m w)
  bind-Succeeds m w h = Split-run (m w) h

module _ {ℓ} {A : Type ℓ} (a : A) (w' : World) where
  pub statement-Succeeds :
      (f : Db → A × Db) (w : World)
      → Succeeds (statement f) w a w'
      → w' ≡ record w { step = suc w.step; db = (f w.db).1 }
  unfolding statement
  statement-Succeeds f w h = elim (Bool-cases (w.faults w.step)) [
    | inl e ↦
        let k : halt internal_error ≡ ok a = ap (λ (p : Exit A × World). p.0) (rw e at h) in
        absurd (ground arith)
    | inr e ↦ sym (ap (λ (p : Exit A × World). p.1) (rw e at h))
  ]

  settled :
      (before : Db) (r : Exit A × World)
      → settle before r ≡ (ok a, w')
      → (v : World) × (r ≡ (ok a, v)) × (w' ≡ record v { step = suc v.step })
  settled before (halt e, v) h =
      let k : halt e ≡ ok a = ap (λ (p : Exit A × World). p.0) h in absurd (ground arith)
  settled before (ok b, v) h = elim (Bool-cases (v.faults v.step)) [
    | inl e ↦
        let k : halt internal_error ≡ ok a = ap (λ (p : Exit A × World). p.0) (rw e at h) in
        absurd (ground arith)
    | inr e ↦
        let k : ok b ≡ ok a = ap (λ (p : Exit A × World). p.0) (rw e at h) in
        (v, ap (λ x. (x, v)) k, sym (ap (λ (p : Exit A × World). p.1) (rw e at h)))
  ]

begun-world :
    (t : Unit {0}) (u w : World) → Succeeds begin w t u → u ≡ record w { step = suc w.step }
begun-world t u w h = statement-Succeeds t u (λ db. (tt, db)) w h

module _ {ℓ} {A : Type ℓ} (a : A) (w' : World) where
  pub transaction-Succeeds :
      (m : M A) (w : World)
      → Succeeds (transaction m) w a w'
      → (v : World) × Succeeds m (record w { step = suc w.step }) a v
        × (w' ≡ record v { step = suc v.step })
  unfolding transaction
  transaction-Succeeds m w h =
      let (v, body, same) = settled a w' w.db ((begin >> m) w) h in
      let (t, u, begun, run) = bind-Succeeds (λ _. m) a v begin w body in
      (v, subst (λ x. Succeeds m x a v) (begun-world t u w begun) run, same)

pub stop_if-Succeeds :
    (bad : Bool) (reply : Reply) (w w' : World) (t : Unit {0})
    → Succeeds (stop_if bad reply) w t w'
    → (bad ≡ false) × (w' ≡ w)
stop_if-Succeeds true reply w w' t h =
    let k : halt reply ≡ ok t = ap (λ (p : Exit (Unit {0}) × World). p.0) h in absurd (ground arith)
stop_if-Succeeds false reply w w' t h = (refl, sym (ap (λ (p : Exit (Unit {0}) × World). p.1) h))

module _ {ℓ} {A : Type ℓ} (f : Db → Option A) where
  -- A query changes no table, and it answers what is there or that it failed.
  pub query-Succeeds :
      (r : Row A) (w w' : World)
      → Succeeds (query f) w r w'
      → (w' ≡ record w { step = suc w.step }) × ((r ≡ broken) ⊎ (r ≡ to_row (f w.db)))
  unfolding query
  query-Succeeds r w w' h = elim (Bool-cases (w.faults w.step)) [
    | inl e ↦
        let k : ok broken ≡ ok r = ap (λ (p : Exit (Row A) × World). p.0) (rw e at h) in
        (sym (ap (λ (p : Exit (Row A) × World). p.1) (rw e at h)), inl (ground arith))
    | inr e ↦
        let k : ok (to_row (f w.db)) ≡ ok r = ap (λ (p : Exit (Row A) × World). p.0) (rw e at h) in
        (sym (ap (λ (p : Exit (Row A) × World). p.1) (rw e at h)), inr (ground arith))
  ]

pub to_row-some {ℓ} :
    {A : Type ℓ} (o : Option A) (r : Row A) (x : A)
    → (r ≡ broken) ⊎ (r ≡ to_row o)
    → r ≡ row x
    → o ≡ some x
to_row-some none r x (inl h) k = absurd (ground arith)
to_row-some none r x (inr h) k = absurd (ground arith)
to_row-some (some y) r x (inl h) k = absurd (ground arith)
to_row-some (some y) r x (inr h) k = ground arith

pub row_or-Succeeds {ℓ} :
    {A : Type ℓ} (r : Row A) (missing failed : Reply) (w w' : World) (a : A)
    → Succeeds (row_or r missing failed) w a w'
    → (r ≡ row a) × (w' ≡ w)
row_or-Succeeds {A = A} (row x) missing failed w w' a h =
    let k : ok x ≡ ok a = ap (λ (p : Exit A × World). p.0) h in
    (ground arith, sym (ap (λ (p : Exit A × World). p.1) h))
row_or-Succeeds {A = A} no_rows missing failed w w' a h =
    let k : halt missing ≡ ok a = ap (λ (p : Exit A × World). p.0) h in absurd (ground arith)
row_or-Succeeds {A = A} broken missing failed w w' a h =
    let k : halt failed ≡ ok a = ap (λ (p : Exit A × World). p.0) h in absurd (ground arith)

pub or_stop-Succeeds {ℓ} :
    {A : Type ℓ} (o : Option A) (reply : Reply) (w w' : World) (a : A)
    → Succeeds (or_stop o reply) w a w'
    → (o ≡ some a) × (w' ≡ w)
or_stop-Succeeds {A = A} none reply w w' a h =
    let k : halt reply ≡ ok a = ap (λ (p : Exit A × World). p.0) h in absurd (ground arith)
or_stop-Succeeds {A = A} (some x) reply w w' a h =
    let k : ok x ≡ ok a = ap (λ (p : Exit A × World). p.0) h in
    (ground arith, sym (ap (λ (p : Exit A × World). p.1) h))

pub exec_unique-Succeeds :
    (clash : Db → Bool) (taken : Reply) (f : Db → Db) (t : Unit {0}) (w w' : World)
    → Succeeds (exec_unique clash taken f) w t w'
    → (clash w.db ≡ false) × (w' ≡ record w { step = suc w.step; db = f w.db })
unfolding exec_unique
exec_unique-Succeeds clash taken f t w w' h = elim (Bool-cases (w.faults w.step)) [
  | inl e ↦
      let k : halt internal_error ≡ ok t = ap (λ (p : Exit (Unit {0}) × World). p.0) (rw e at h) in
      absurd (ground arith)
  | inr e ↦ elim (Bool-cases (clash w.db)) [
    | inl c ↦
        let k : halt taken ≡ ok t = ap (λ (p : Exit (Unit {0}) × World). p.0) (rw (e, c) at h) in
        absurd (ground arith)
    | inr c ↦ (c, sym (ap (λ (p : Exit (Unit {0}) × World). p.1) (rw (e, c) at h)))
  ]
]

pub statement-answer {ℓ} :
    {A : Type ℓ} (a : A) (w' : World) (f : Db → A × Db) (w : World)
    → Succeeds (statement f) w a w'
    → (f w.db).0 ≡ a
unfolding statement
statement-answer {A = A} a w' f w h = elim (Bool-cases (w.faults w.step)) [
  | inl e ↦
      let k : halt internal_error ≡ ok a = ap (λ (p : Exit A × World). p.0) (rw e at h) in
      absurd (ground arith)
  | inr e ↦
      let k : ok (f w.db).0 ≡ ok a = ap (λ (p : Exit A × World). p.0) (rw e at h) in ground arith
]
