-- ===== src/Admin/Refused.antt =====
-- A user whom the tables let in no more, and the password of that user.
use verstak_sync_server.Prelude.{
  ℕ, ◌≡◌, ◌≢◌, refl, sym, ap, ◌∙◌, subst, String, Bool, true, false, not, ◌||◌, ◌==◌, find, All,
  All-find, arith, eq_iff,
}
use verstak_sync_server.Schema.{Db, UserRow}
use verstak_sync_server.Server.World.{World}
use verstak_sync_server.Server.Reply.{json_err}
use verstak_sync_server.Server.Action.{
  Exit, ok, halt, M, ◌>>=◌, ◌>>◌, pure, stop, stop_if, query, Row, row, no_rows, broken, row_or,
}
use verstak_sync_server.Server.Success.{
  Succeeds, bind-Succeeds, stop_if-Succeeds, query-Succeeds, to_row-some, row_or-Succeeds,
}
use verstak_sync_server.Locale.{page_status}
use verstak_sync_server.Session.Safety.{or_false}
use verstak_sync_server.Device.Credentials.{is_named, admit_user, check_credentials, refuse_if}
use verstak_sync_server.Account.Forms.{web_credentials}
use verstak_sync_server.Admin.Users.{is_user_session}

-- Every row of the user is blocked, if there is one, and the user has no session.
abbrev pub IsBlocked : String → UserRow → Type 0
IsBlocked id u = (u.id == id) ≡ true → u.blocked ≡ true

abbrev pub IsBarred : String → Db → Type 0
IsBarred id db = All (IsBlocked id) db.users × All (λ s. is_user_session id s ≡ false) db.sessions

-- The user who is found by a query is not the one who is barred, unless the row is blocked.
pub not_blocked :
    (id : String) (test : UserRow → Bool) (r : Row UserRow) (w w' : World) (u : UserRow)
    → All (IsBlocked id) w.db.users
    → Succeeds (query (λ db. find test db.users)) w r w'
    → r ≡ row u
    → u.blocked ≡ false
    → u.id ≢ id
not_blocked id test r w w' u all h k free same =
    let answer = query-Succeeds (λ db. find test db.users) r w w' h in
    let blocked =
      All-find (IsBlocked id) test w.db.users all
        (to_row-some (find test w.db.users) r u answer.1 k) in
    let clash : false ≡ true = sym free ∙ blocked ((eq_iff u.id id).1 same) in absurd (ground arith)

refuse_if-Succeeds :
    (bad : Bool) (report : M (Unit {0})) (status : ℕ) (w w' : World) (t : Unit {0})
    → Succeeds (refuse_if bad report status) w t w'
    → (bad ≡ false) × (w' ≡ w)
refuse_if-Succeeds false report status w w' t h =
    (refl, sym (ap (λ (p : Exit (Unit {0}) × World). p.1) h))
refuse_if-Succeeds true report status w w' t h =
    let (a, u, first, last) = bind-Succeeds (λ _. stop (json_err status)) t w' report w h in
    let k : halt (json_err status) ≡ ok t = ap (λ (p : Exit (Unit {0}) × World). p.0) last in
    absurd (ground arith)

module _ (report : String → String → M (Unit {0})) (password : String) where
  refused :
      (w w' : World) (u : UserRow)
      → Succeeds (report "" "pair: user not found" >> stop (json_err 401)) w u w'
      → ⊥
  refused w w' u h =
      let (a, v, first, last) =
        bind-Succeeds (λ _. stop (json_err 401)) u w' (report "" "pair: user not found") w h in
      let k : halt (json_err 401) ≡ ok u = ap (λ (p : Exit UserRow × World). p.0) last in
      absurd (ground arith)

  admit_user-Succeeds :
      (r : Row UserRow) (w w' : World) (u : UserRow)
      → Succeeds (admit_user report password r) w u w'
      → (r ≡ row u) × (u.blocked ≡ false)
  admit_user-Succeeds (row x) w w' u h =
      let unconfirmed = refuse_if (not x.confirmed) (report x.id "pair: email not confirmed") 403 in
      let wrong =
        refuse_if (not (w.host.bcrypt_matches x.password_hash password))
          (report x.id "pair: wrong password") 401 in
      let (a, v, first, rest) =
        bind-Succeeds (λ _. unconfirmed >> (wrong >> pure x)) u w'
          (refuse_if x.blocked (report x.id "pair: user blocked") 403) w h in
      let (b, y, second, more) = bind-Succeeds (λ _. wrong >> pure x) u w' unconfirmed v rest in
      let (c, z, third, done) = bind-Succeeds (λ _. pure x) u w' wrong y more in
      let k : ok x ≡ ok u = ap (λ (p : Exit UserRow × World). p.0) done in
      let same : x ≡ u = ground arith in
      (
        ap row same,
        subst (λ (y : UserRow). y.blocked ≡ false) same
            (refuse_if-Succeeds x.blocked (report x.id "pair: user blocked") 403 w v a first).0,
      )
  admit_user-Succeeds no_rows w w' u h = absurd (refused w w' u h)
  admit_user-Succeeds broken w w' u h = absurd (refused w w' u h)

  -- The user name and password of a barred user are good for nothing.
  pub check_credentials-barred :
      (id login : String) (w w' : World) (u : UserRow)
      → All (IsBlocked id) w.db.users
      → Succeeds (check_credentials report login password) w u w'
      → u.id ≢ id
  unfolding check_credentials
  check_credentials-barred id login w w' u all h =
      let test = is_named w.host login in
      let (r, v, asked, rest) =
        bind-Succeeds (admit_user report password) u w' (query (λ db. find test db.users)) w h in
      let (is_row, free) = admit_user-Succeeds r v w' u rest in
      not_blocked id test r w v u all asked is_row free

-- A barred user comes in through the login form no more than through the API.
pub web_credentials-barred :
    (id login password : String) (w w' : World) (u : UserRow)
    → All (IsBlocked id) w.db.users
    → Succeeds (web_credentials login password) w u w'
    → u.id ≢ id
web_credentials-barred id login password w w' u all h =
    let refusal = page_status "login" "error.invalidCredentials" 401 in
    let test = is_named w.host login in
    let wrong = λ (x : UserRow). not (w.host.bcrypt_matches x.password_hash password) in
    let bad = λ (x : UserRow). x.blocked || not x.confirmed || wrong x in
    let check = λ (x : UserRow). stop_if (bad x) refusal >> pure x in
    let (r, v, asked, rest) =
      bind-Succeeds (λ (r : Row UserRow). row_or r refusal refusal >>= check) u w'
        (query (λ db. find test db.users)) w h in
    let (x, y, chosen, last) = bind-Succeeds check u w' (row_or r refusal refusal) v rest in
    let (t, z, tested, done) = bind-Succeeds (λ _. pure x) u w' (stop_if (bad x) refusal) y last in
    let (passed, _) = stop_if-Succeeds (bad x) refusal y z t tested in
    let (early, _) = or_false (x.blocked || not x.confirmed) (wrong x) passed in
    let (free, _) = or_false x.blocked (not x.confirmed) early in
    let k : ok x ≡ ok u = ap (λ (p : Exit UserRow × World). p.0) done in
    let same : x ≡ u = ground arith in
    let (is_row, _) = row_or-Succeeds r refusal refusal v y x chosen in
    subst (λ (y : UserRow). y.id ≢ id) same (not_blocked id test r w v x all asked is_row free)
