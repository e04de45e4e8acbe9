-- ===== src/Server/Rollback.antt =====
-- What a transaction leaves behind.
use verstak_sync_server.Prelude.{◌≡◌, refl, arith}
use verstak_sync_server.Server.World.{World}
use verstak_sync_server.Server.Reply.{Reply}
use verstak_sync_server.Server.Action.{Exit, ok, halt, M, transaction, begin, settle, ◌>>◌}

module _ {ℓ} {A : Type ℓ} where
  settle-halt :
      (w : World) (r : Exit A × World) (reply : Reply)
      → (settle w.db r).0 ≡ halt reply
      → (settle w.db r).1.db ≡ w.db
  settle-halt w (ok a, w') reply h = ground arith
  settle-halt w (halt e, w') reply h = refl

  -- A transaction that does not commit leaves the tables as they were.
  pub transaction-halt :
      (m : M A) (w : World) (reply : Reply)
      → (transaction m w).0 ≡ halt reply
      → (transaction m w).1.db ≡ w.db
  unfolding transaction
  transaction-halt m w reply h = settle-halt w ((begin >> m) w) reply h
