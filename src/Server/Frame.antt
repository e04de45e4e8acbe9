-- ===== src/Server/Frame.antt =====
-- What an action leaves as it was, on every run, whatever the database does.
use verstak_sync_server.Prelude.{◌≡◌, refl, ◌∙◌, Bool-cases, inl, inr, Option, suc}
use verstak_sync_server.Schema.{Db}
use verstak_sync_server.Server.World.{World}
use verstak_sync_server.Server.Action.{
  Exit, ok, halt, M, continue, ◌>>=◌, statement, try_exec, query,
}

module _ {κ} {X : Type κ} (g : World → X) where
  abbrev pub Keeps {ℓ} : {A : Type ℓ} → M A → Type κ
  Keeps m = (w : World) → g (m w).1 ≡ g w

  module _ {ℓ λ'} {A : Type ℓ} {B : Type λ'} where
    continue-Keeps :
        (f : A → M B) → ((a : A) → Keeps (f a)) → (r : Exit A × World) → g (continue f r).1 ≡ g r.1
    continue-Keeps f h (ok a, w) = h a w
    continue-Keeps f h (halt e, w) = refl

    pub bind-Keeps : (m : M A) (f : A → M B) → Keeps m → ((a : A) → Keeps (f a)) → Keeps (m >>= f)
    bind-Keeps m f k h w = continue-Keeps f h (m w) ∙ k w

  module _ {ℓ} {A : Type ℓ} where
    pub statement-Keeps :
        (f : Db → A × Db)
        → ((w : World) → g (record w { step = suc w.step }) ≡ g w)
        → ((w : World) → g (record w { step = suc w.step; db = (f w.db).1 }) ≡ g w)
        → Keeps (statement f)
    unfolding statement
    statement-Keeps f idle h w = elim (Bool-cases (w.faults w.step)) [
      | inl e ↦ rw e (idle w)
      | inr e ↦ rw e (h w)
    ]

    pub query-Keeps :
        (f : Db → Option A)
        → ((w : World) → g (record w { step = suc w.step }) ≡ g w)
        → Keeps (query f)
    unfolding query
    query-Keeps f idle w = elim (Bool-cases (w.faults w.step)) [
      | inl e ↦ rw e (idle w)
      | inr e ↦ rw e (idle w)
    ]

  pub try_exec-Keeps :
      (f : Db → Db)
      → ((w : World) → g (record w { step = suc w.step }) ≡ g w)
      → ((w : World) → g (record w { step = suc w.step; db = f w.db }) ≡ g w)
      → Keeps (try_exec f)
  unfolding try_exec
  try_exec-Keeps f idle h w = elim (Bool-cases (w.faults w.step)) [
    | inl e ↦ rw e (idle w)
    | inr e ↦ rw e (h w)
  ]
