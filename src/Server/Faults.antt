-- ===== src/Server/Faults.antt =====
-- Runs where no statement fails, and what a failure can change.
use verstak_sync_server.Prelude.{
  ℕ, suc, ◌≡◌, refl, sym, ap, ◌∙◌, ◌⊎◌, inl, inr, Bool, true, false, Bool-cases, if◌then◌else◌,
  Option, arith,
}
use verstak_sync_server.Schema.{Db}
use verstak_sync_server.Server.World.{World}
use verstak_sync_server.Server.Reply.{Reply, internal_error}
use verstak_sync_server.Server.Action.{
  Exit, ok, halt, M, continue, ◌>>=◌, ◌>>◌, pure, stop, stop_if, statement, query, Row, broken,
  to_row, transaction, settle, begin,
}

-- The same world with a database that never fails.
abbrev pub quiet : World → World
quiet w = record w { faults = λ _. false }

-- Some statement failed, and the request was given up with status 500.
abbrev pub Fails {ℓ} : {A : Type ℓ} → World → Exit A → Type ℓ
Fails w r = ((n : ℕ) × (w.faults n ≡ true)) × (r ≡ halt internal_error)

-- A run either fails so, or is the run in which nothing fails.
pub record Robust {ℓ} {A : Type ℓ} (m : M A) : Type ℓ where
  pub keeps_faults : (w : World) → (m w).1.faults ≡ w.faults
  pub same_run : (w : World) → Fails w (m w).0 ⊎ (m (quiet w) ≡ ((m w).0, quiet (m w).1))

module _ {ℓ} {A : Type ℓ} where
  pub pure-Robust : (a : A) → Robust (pure a)
  pure-Robust a = record { keeps_faults = λ w. refl; same_run = λ w. inr refl }

  pub stop-Robust : (reply : Reply) → Robust (stop {A = A} reply)
  stop-Robust reply = record { keeps_faults = λ w. refl; same_run = λ w. inr refl }

  pub gets-Robust :
      (f : World → A) → ((w : World) → f (quiet w) ≡ f w) → Robust (λ w. (ok (f w), w))
  gets-Robust f h = record {
    keeps_faults = λ w. refl;
    same_run = λ w. inr (λ i. (ok (h w i), quiet w));
  }

  statement-same :
      (f : Db → A × Db) (w : World)
      → Fails w (statement f w).0
        ⊎ (statement f (quiet w) ≡ ((statement f w).0, quiet (statement f w).1))
  unfolding statement
  statement-same f w = elim (Bool-cases (w.faults w.step)) [
    | inl e ↦ inl ((w.step, e), rw e)
    | inr e ↦ inr (rw e)
  ]

  statement-faults : (f : Db → A × Db) (w : World) → (statement f w).1.faults ≡ w.faults
  unfolding statement
  statement-faults f w = elim (Bool-cases (w.faults w.step)) [ inl e ↦ rw e | inr e ↦ rw e ]

  pub statement-Robust : (f : Db → A × Db) → Robust (statement f)
  statement-Robust f = record { keeps_faults = statement-faults f; same_run = statement-same f }

module _ {ℓ κ} {A : Type ℓ} {B : Type κ} (f : A → M B) (robust : (a : A) → Robust (f a)) where
  continue-halt :
      (r : Exit A × World) (reply : Reply) → r.0 ≡ halt reply → (continue f r).0 ≡ halt reply
  continue-halt (ok a, w) reply h = absurd (ground arith)
  continue-halt (halt e, w) reply h = ground arith

  continue-faults : (r : Exit A × World) → (continue f r).1.faults ≡ r.1.faults
  continue-faults (ok a, w) = (robust a).keeps_faults w
  continue-faults (halt e, w) = refl

  continue-same :
      (w : World) (r : Exit A × World)
      → r.1.faults ≡ w.faults
      → Fails w (continue f r).0
        ⊎ (continue f (r.0, quiet r.1) ≡ ((continue f r).0, quiet (continue f r).1))
  continue-same w (ok a, w') h = elim ((robust a).same_run w') [
    | inl ((n, e), failed) ↦ inl ((n, ap (λ (g : ℕ → Bool). g n) (sym h) ∙ e), failed)
    | inr e ↦ inr e
  ]
  continue-same w (halt e, w') h = inr refl

  bind-same :
      (m : M A)
      → Robust m
      → (w : World)
      → Fails w ((m >>= f) w).0 ⊎ ((m >>= f) (quiet w) ≡ (((m >>= f) w).0, quiet ((m >>= f) w).1))
  bind-same m mr w = elim (mr.same_run w) [
    | inl (fault, failed) ↦ inl (fault, continue-halt (m w) internal_error failed)
    | inr e ↦ rw e (continue-same w (m w) (mr.keeps_faults w))
  ]

  pub bind-Robust : {m : M A} → Robust m → Robust (m >>= f)
  bind-Robust {m} mr = record {
    keeps_faults = λ w. continue-faults (m w) ∙ mr.keeps_faults w;
    same_run = bind-same m mr;
  }

module _ {ℓ} {A : Type ℓ} where
  settle-same :
      (w : World) (r : Exit A × World)
      → r.1.faults ≡ w.faults
      → Fails w (settle w.db r).0
        ⊎ (settle w.db (r.0, quiet r.1) ≡ ((settle w.db r).0, quiet (settle w.db r).1))
  settle-same w (ok a, w') h = elim (Bool-cases (w'.faults w'.step)) [
    | inl e ↦ inl ((w'.step, ap (λ (g : ℕ → Bool). g w'.step) (sym h) ∙ e), rw e)
    | inr e ↦ inr (rw e)
  ]
  settle-same w (halt reply, w') h = inr refl

  settle-faults : (db : Db) (r : Exit A × World) → (settle db r).1.faults ≡ r.1.faults
  settle-faults db (ok a, w) = elim (Bool-cases (w.faults w.step)) [ inl e ↦ rw e | inr e ↦ rw e ]
  settle-faults db (halt reply, w) = refl

  settle_failed :
      (db : Db) (r : Exit A × World) (reply : Reply)
      → r.0 ≡ halt reply
      → (settle db r).0 ≡ halt reply
  settle_failed db (ok a, w) reply h = absurd (ground arith)
  settle_failed db (halt e, w) reply h = h

  -- A transaction around a robust body is robust.
  pub transaction-Robust : {m : M A} → Robust m → Robust (transaction m)
  unfolding transaction
  transaction-Robust {m} mr = record {
    keeps_faults = λ w. settle-faults w.db ((begin >> m) w) ∙ body.keeps_faults w;
    same_run = λ w. elim (body.same_run w) [
      | inl (fault, failed) ↦ inl (fault, settle_failed w.db ((begin >> m) w) internal_error failed)
      | inr e ↦ rw e (settle-same w ((begin >> m) w) (body.keeps_faults w))
    ];
  }
    where
      body : Robust (begin >> m)
      body = bind-Robust (λ _. m) (λ _. mr) (statement-Robust (λ db. (tt, db)))

module _ {ℓ κ} {A : Type ℓ} {B : Type κ} (f : Db → Option A) (k : Row A → M B) where
  query-faults :
      ((r : Row A) → Robust (k r)) → (w : World) → ((query f >>= k) w).1.faults ≡ w.faults
  unfolding query
  query-faults robust w = elim (Bool-cases (w.faults w.step)) [
    | inl e ↦ rw e ((robust broken).keeps_faults (record w { step = suc w.step }))
    | inr e ↦ rw e ((robust (to_row (f w.db))).keeps_faults (record w { step = suc w.step }))
  ]

  query-same :
      ((r : Row A) → Robust (k r))
      → ((w : World) → (k broken w).0 ≡ halt internal_error)
      → (w : World)
      → Fails w ((query f >>= k) w).0
        ⊎ ((query f >>= k) (quiet w) ≡ (((query f >>= k) w).0, quiet ((query f >>= k) w).1))
  unfolding query
  query-same robust give_up w = elim (Bool-cases (w.faults w.step)) [
    | inl e ↦ inl ((w.step, e), rw e (give_up (record w { step = suc w.step })))
    | inr e ↦ rw e ((robust (to_row (f w.db))).same_run (record w { step = suc w.step }))
  ]

  -- A query whose failure is answered with status 500.
  pub query-Robust :
      ((r : Row A) → Robust (k r))
      → ((w : World) → (k broken w).0 ≡ halt internal_error)
      → Robust (query f >>= k)
  query-Robust robust give_up = record {
    keeps_faults = query-faults robust;
    same_run = query-same robust give_up;
  }

pub if-Robust {ℓ} :
    {A : Type ℓ} (b : Bool) (m n : M A) → Robust m → Robust n → Robust (if b then m else n)
if-Robust true m n hm hn = hm
if-Robust false m n hm hn = hn

pub stop_if-Robust : (b : Bool) (reply : Reply) → Robust (stop_if b reply)
stop_if-Robust true reply = stop-Robust reply
stop_if-Robust false reply = pure-Robust tt
