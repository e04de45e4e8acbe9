-- ===== src/Admin/ShutOut.antt =====
-- Once a user has been deleted or blocked, nobody comes in as that user.
use verstak_sync_server.Prelude.{
  suc, ◌≡◌, ◌≢◌, refl, sym, ap, ◌∙◌, subst, String, true, false, List, [], ◌∷◌, ◌==◌, Bool-cases,
  inl, inr, update_where, All, All-map, arith,
}
use verstak_sync_server.Schema.{Db, UserRow}
use verstak_sync_server.Server.World.{World}
use verstak_sync_server.Server.Action.{exec, transaction}
use verstak_sync_server.Server.Success.{
  Succeeds, bind-Succeeds, statement-Succeeds, transaction-Succeeds,
}
use verstak_sync_server.Admin.Users.{
  is_user_session, delete_user, set_blocked, block_user, end_user_sessions, delete_user_statements,
}
use verstak_sync_server.Admin.Deletion.{
  WithoutUser, transaction-exec_all, run_all-WithoutUser, unselected, delete_where-select,
}
use verstak_sync_server.Admin.Barred.{ComesInAs, IsBarred-out}
use verstak_sync_server.Admin.Refused.{IsBarred, IsBlocked}

absent-IsBlocked : (id : String) (u : UserRow) → (u.id == id) ≡ false → IsBlocked id u
absent-IsBlocked id u h k = let clash : false ≡ true = sym h ∙ k in absurd (ground arith)

deleted-IsBarred :
    (id : String) (before after : Db) → WithoutUser id before after → IsBarred id after
deleted-IsBarred id before after h = (
  All-map (λ (u : UserRow). (u.id == id) ≡ false) (IsBlocked id) (absent-IsBlocked id) after.users
      (subst (All (λ (u : UserRow). (u.id == id) ≡ false)) (sym h.users)
        (unselected (λ (u : UserRow). u.id == id) before.users)),
  subst (All (λ s. is_user_session id s ≡ false)) (sym h.sessions)
      (unselected (is_user_session id) before.sessions),
)

-- Once a user has been deleted, no one comes in as that user while the tables are as they were
-- left: with a password, a session's token or a device's token.
pub delete_user-final :
    (id : String) (w w' later : World)
    → id ≢ ""
    → Succeeds (delete_user id) w tt w'
    → later.db ≡ w'.db
    → ¬ ComesInAs id later
unfolding delete_user
delete_user-final id w w' later named h same =
    let gone = run_all-WithoutUser id w.db in
    let left = same ∙ transaction-exec_all (delete_user_statements id) w w' h in
    IsBarred-out id later named
      (deleted-IsBarred id w.db later.db (subst (WithoutUser id w.db) (sym left) gone))

blocked-All :
    (id : String) (us : List UserRow)
    → All
        (IsBlocked id)
        (update_where (λ u. u.id == id) (λ (u : UserRow). record u { blocked = true }) us)
blocked-All id [] = tt
blocked-All id (u ∷ us) = elim (Bool-cases (u.id == id)) [
  | inl e ↦ (rw e (λ _. refl), blocked-All id us)
  | inr e ↦ (rw e (absent-IsBlocked id u e), blocked-All id us)
]

blocked-IsBarred :
    (id : String) (db : Db) → IsBarred id (end_user_sessions id (block_user id true db))
blocked-IsBarred id db = (
  blocked-All id db.users,
  subst (All (λ s. is_user_session id s ≡ false))
      (sym (delete_where-select (is_user_session id) db.sessions))
      (unselected (is_user_session id) db.sessions),
)

-- Once a user has been blocked, no one comes in as that user while the tables are as they were
-- left: the sessions are over, and a device's token is refused like the password.
pub set_blocked-final :
    (id : String) (w w' later : World)
    → id ≢ ""
    → Succeeds (transaction (set_blocked id true)) w tt w'
    → later.db ≡ w'.db
    → ¬ ComesInAs id later
set_blocked-final id w w' later named h same =
    let (v, body, after) = transaction-Succeeds tt w' (set_blocked id true) w h in
    let start : World = record w { step = suc w.step } in
    let (t, u, first, last) =
      bind-Succeeds (λ _. exec (end_user_sessions id)) tt v (exec (block_user id true)) start
        body in
    let at_u = statement-Succeeds t u (λ db. (tt, block_user id true db)) start first in
    let at_v = statement-Succeeds tt v (λ db. (tt, end_user_sessions id db)) u last in
    let left =
      same
      ∙ ap (λ (x : World). x.db) (after ∙ ap (λ (x : World). record x { step = suc x.step }) at_v)
      ∙ ap (λ (x : World). end_user_sessions id x.db) at_u in
    IsBarred-out id later named (subst (IsBarred id) (sym left) (blocked-IsBarred id w.db))
