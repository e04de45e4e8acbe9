-- ===== src/Server/Calm.antt =====
-- Fault-free runs, put together from those of the parts.
use verstak_sync_server.Prelude.{
  ℕ, suc, ◌≡◌, refl, ◌∙◌, Bool, true, false, if◌then◌else◌, ap, Option,
}
use verstak_sync_server.Schema.{Db}
use verstak_sync_server.Server.World.{World}
use verstak_sync_server.Server.Reply.{Reply}
use verstak_sync_server.Server.Action.{
  Exit, ok, halt, M, ◌>>=◌, continue, pure, statement, exec, query, to_row, transaction, settle,
}
use verstak_sync_server.Server.Faults.{quiet}

-- From `w`, with no fault, the action ends in `e` with the tables `db`.
pub record Ends {ℓ} {A : Type ℓ} (m : M A) (w : World) (e : Exit A) (db : Db) : Type ℓ where
  pub steps : ℕ
  pub run : m (quiet w) ≡ (e, quiet (record w { db = db; step = steps }))

abbrev pub Runs {ℓ} : {A : Type ℓ} → M A → World → A → Db → Type ℓ
Runs m w a db = Ends m w (ok a) db

module _ {ℓ} {A : Type ℓ} where
  pub pure-Runs : (a : A) (w : World) → Runs (pure a) w a w.db
  pure-Runs a w = record { steps = w.step; run = refl }

  pub statement-Runs : (f : Db → A × Db) (w : World) → Runs (statement f) w (f w.db).0 (f w.db).1
  unfolding statement
  statement-Runs f w = record { steps = suc w.step; run = refl }

  pub query-Runs : (f : Db → Option A) (w : World) → Runs (query f) w (to_row (f w.db)) w.db
  unfolding query
  query-Runs f w = record { steps = suc w.step; run = refl }

  pub if_query-Runs :
      (b : Bool) (f : Db → A) (a : A) (w : World)
      → Runs (if b then statement (λ db. (f db, db)) else pure a) w (if b then f w.db else a) w.db
  if_query-Runs true f a w = statement-Runs (λ db. (f db, db)) w
  if_query-Runs false f a w = pure-Runs a w

  pub transaction-Runs :
      (m : M A) (w : World) (a : A) (db : Db)
      → ((n : ℕ) → Runs m (record w { step = n }) a db)
      → Runs (transaction m) w a db
  unfolding transaction statement
  transaction-Runs m w a db h = record {
    steps = suc (h (suc w.step)).steps;
    run = ap (settle w.db) (h (suc w.step)).run;
  }

  -- A body that stops early is undone.
  pub transaction-Ends_halt :
      (m : M A) (w : World) (reply : Reply) (db : Db)
      → ((n : ℕ) → Ends m (record w { step = n }) (halt reply) db)
      → Ends (transaction m) w (halt reply) w.db
  unfolding transaction statement
  transaction-Ends_halt m w reply db h = record {
    steps = (h (suc w.step)).steps;
    run = ap (settle w.db) (h (suc w.step)).run;
  }

pub if_exec-Runs :
    (b : Bool) (f : Db → Db) (w : World)
    → Runs (if b then exec f else pure tt) w tt (if b then f w.db else w.db)
if_exec-Runs true f w = statement-Runs (λ db. (tt, f db)) w
if_exec-Runs false f w = pure-Runs tt w

module _ {ℓ κ} {A : Type ℓ} {B : Type κ} where
  pub bind-Ends :
      (m : M A) (f : A → M B) (w : World) (a : A) (e : Exit B) (db db' : Db)
      → Runs m w a db
      → ((n : ℕ) → Ends (f a) (record w { db = db; step = n }) e db')
      → Ends (m >>= f) w e db'
  bind-Ends m f w a e db db' h k = record {
    steps = (k h.steps).steps;
    run = ap (continue f) h.run ∙ (k h.steps).run;
  }

  pub bind-Ends_halt :
      (m : M A) (f : A → M B) (w : World) (reply : Reply) (db : Db)
      → Ends m w (halt reply) db
      → Ends (m >>= f) w (halt reply) db
  bind-Ends_halt m f w reply db h = record { steps = h.steps; run = ap (continue f) h.run }
