-- ===== src/Account/Reset.antt =====
-- A token for a new password serves once, and only before it expires.
use verstak_sync_server.Prelude.{
  ℕ, suc, ◌<◌, ◌≡◌, refl, sym, ap, ◌∙◌, subst, String, Bool, true, false, not, ◌&&◌, none, some,
  ◌==◌, Bool-cases, inl, inr, find, List, [], ◌∷◌, delete_where, eqb, arith, ltb, ltb→lt, find_test,
  eq_true, All, All-find, ◌≢◌,
}
use verstak_sync_server.Schema.{Db, EmailTokenRow}
use verstak_sync_server.Server.World.{World, Host, instant}
use verstak_sync_server.Server.Reply.{json_err, internal_error}
use verstak_sync_server.Server.Action.{
  Exit, ok, ◌>>=◌, ◌>>◌, pure, or_stop, query, row_or, stop_if, exec, gets,
}
use verstak_sync_server.Server.Success.{
  Succeeds, bind-Succeeds, or_stop-Succeeds, stop_if-Succeeds, statement-Succeeds, query-Succeeds,
  row_or-Succeeds, to_row-some, transaction-Succeeds,
}
use verstak_sync_server.Account.Tokens.{
  is_reset, reset_expired, delete_reset, set_password, delete_resets_of, has_user,
  reset_password_with_token, spend_token, spend_row, change_password, finish_reset, known_user,
}
use verstak_sync_server.Session.Safety.{not-false}

db_of : {w w' : World} → w ≡ w' → w.db ≡ w'.db
db_of h = ap (λ (w : World). w.db) h

-- The tables after a reset.
abbrev pub after_reset : String → EmailTokenRow → String → Db → Db
after_reset h t hash db =
    delete_resets_of t.user_id (set_password t.user_id hash (delete_reset h t.expires_at db))

finish_reset-Succeeds :
    (t : EmailTokenRow) (hash : String) (w w' : World) (id : String)
    → Succeeds (finish_reset t hash) w id w'
    → (id ≡ t.user_id)
      × (has_user t.user_id (set_password t.user_id hash w.db) ≡ true)
      × (w'.db ≡ delete_resets_of t.user_id (set_password t.user_id hash w.db))
finish_reset-Succeeds t hash w w' id h =
    let (a, u, first, rest) =
      bind-Succeeds (λ _. known_user t) id w' (exec (set_password t.user_id hash)) w h in
    let at_u = statement-Succeeds a u (λ db. (tt, set_password t.user_id hash db)) w first in
    let missing = not (has_user t.user_id u.db) in
    let (b, v, second, last) =
      bind-Succeeds (λ _. exec (delete_resets_of t.user_id) >> pure t.user_id) id w'
        (stop_if missing (json_err 400)) u rest in
    let (known, at_v) = stop_if-Succeeds missing (json_err 400) u v b second in
    let (c, x, third, done) =
      bind-Succeeds (λ _. pure t.user_id) id w' (exec (delete_resets_of t.user_id)) v last in
    let at_x = statement-Succeeds c x (λ db. (tt, delete_resets_of t.user_id db)) v third in
    let same : ok t.user_id ≡ ok id = ap (λ (p : Exit String × World). p.0) done in
    let end : x ≡ w' = ap (λ (p : Exit String × World). p.1) done in
    (
      ground arith,
      subst (λ (d : Db). has_user t.user_id d ≡ true) (db_of at_u)
          (not-false (has_user t.user_id u.db) known),
      sym (db_of end) ∙ db_of at_x ∙ ap (delete_resets_of t.user_id) (db_of at_v ∙ db_of at_u),
    )

spend_token-Succeeds :
    (h : String) (t : EmailTokenRow) (password : String) (w w' : World) (id : String)
    → Succeeds (spend_token h password t) w id w'
    → (hash : String) × (w.host.bcrypt_hash password 10 ≡ some hash)
      × (w.now < instant t.expires_at)
      × (id ≡ t.user_id)
      × (w'.db ≡ after_reset h t hash w.db)
spend_token-Succeeds h t password w w' id k =
    let (a, u, first, rest) =
      bind-Succeeds (λ _. exec (delete_reset h t.expires_at) >> change_password t password) id w'
        (stop_if (reset_expired w.now t) (json_err 400)) w k in
    let (live, at_u) = stop_if-Succeeds (reset_expired w.now t) (json_err 400) w u a first in
    let (b, v, second, last) =
      bind-Succeeds (λ _. change_password t password) id w' (exec (delete_reset h t.expires_at)) u
        rest in
    let at_v = statement-Succeeds b v (λ db. (tt, delete_reset h t.expires_at db)) u second in
    let (hash, x, hashing, done) =
      bind-Succeeds (finish_reset t) id w' (or_stop (v.host.bcrypt_hash password 10) internal_error)
        v last in
    let (made, at_x) =
      or_stop-Succeeds (v.host.bcrypt_hash password 10) internal_error v x hash hashing in
    let (same, known, tables) = finish_reset-Succeeds t hash x w' id done in
    let host =
      ap (λ (y : World). y.host.bcrypt_hash password 10)
        (at_v
          ∙ ap
              (λ (y : World). record y { step = suc y.step; db = delete_reset h t.expires_at y.db })
              at_u) in
    (
      hash,
      sym host ∙ made,
      ltb→lt w.now (instant t.expires_at) (not-false (ltb w.now (instant t.expires_at)) live),
      same,
      tables
          ∙ ap (λ d. delete_resets_of t.user_id (set_password t.user_id hash d))
              (db_of at_x ∙ db_of at_v ∙ ap (delete_reset h t.expires_at) (db_of at_u)),
    )

pub reset_password_with_token-Succeeds :
    (token password : String) (w w' : World) (id : String)
    → Succeeds (reset_password_with_token token password) w id w'
    → (t : EmailTokenRow) × (hash : String) × (find
          (is_reset (w.host.sha256_hex token))
          w.db.email_tokens
        ≡ some t)
      × (w.host.bcrypt_hash password 10 ≡ some hash)
      × (w.now < instant t.expires_at)
      × (id ≡ t.user_id)
      × (w'.db ≡ after_reset (w.host.sha256_hex token) t hash w.db)
unfolding reset_password_with_token
reset_password_with_token-Succeeds token password w w' id k =
    let h = w.host.sha256_hex token in
    let f = λ (db : Db). find (is_reset h) db.email_tokens in
    let (v, body, after) =
      transaction-Succeeds id w'
        (do
          host ← gets (λ w. w.host)
          found ← query (λ db. find (is_reset (host.sha256_hex token)) db.email_tokens)
          spend_row (host.sha256_hex token) password found)
        w k in
    let (r, u, asked, rest) =
      bind-Succeeds (spend_row h password) id v (query f) (record w { step = suc w.step }) body in
    let (at_u, answer) = query-Succeeds f r (record w { step = suc w.step }) u asked in
    let (t, x, chosen, last) =
      bind-Succeeds (spend_token h password) id v (row_or r (json_err 400) internal_error) u rest in
    let (is_row, at_x) = row_or-Succeeds r (json_err 400) internal_error u x t chosen in
    let (hash, made, live, same, tables) = spend_token-Succeeds h t password x v id last in
    let at = at_x ∙ at_u in
    (
      t,
      hash,
      to_row-some (find (is_reset h) w.db.email_tokens) r t answer is_row,
      subst (λ (y : World). y.host.bcrypt_hash password 10 ≡ some hash) at made,
      subst (λ (y : World). y.now < instant t.expires_at) at live,
      same,
      db_of after ∙ tables ∙ ap (after_reset h t hash) (db_of at),
    )

module _ {ℓ} {A : Type ℓ} (p q : A → Bool) where
  find-delete_covered :
      (xs : List A) → All (λ x. p x ≡ true → q x ≡ true) xs → find p (delete_where q xs) ≡ none
  find-delete_covered [] h = refl
  find-delete_covered (x ∷ xs) (h, hs) = elim (Bool-cases (q x)) [
    | inl e ↦ rw e (find-delete_covered xs hs)
    | inr e ↦ elim (Bool-cases (p x)) [
      | inl f ↦ let clash : false ≡ true = sym e ∙ h f in absurd (ground arith)
      | inr f ↦ rw (e, f) (find-delete_covered xs hs)
    ]
  ]

  find-delete_none : (xs : List A) → find p xs ≡ none → find p (delete_where q xs) ≡ none
  find-delete_none [] h = refl
  find-delete_none (x ∷ xs) h = elim (Bool-cases (p x)) [
    | inl f ↦ let clash : some x ≡ none = rw f at h in absurd (ground arith)
    | inr f ↦
        let rest = find-delete_none xs (rw f at h) in
        elim (Bool-cases (q x)) [ inl e ↦ rw e rest | inr e ↦ rw (e, f) rest ]
  ]

-- token_hash is the primary key of the table: rows with one hash are the same row.
abbrev pub IsKeyed : List EmailTokenRow → Type 0
IsKeyed ts = All (λ x. All (λ (y : EmailTokenRow). x.token_hash ≡ y.token_hash → x ≡ y) ts) ts

and_true : (a b : Bool) → (a && b) ≡ true → a ≡ true
and_true true b h = refl
and_true false b h = h

eqb_same : (m n : ℕ) → m ≡ n → eqb m n ≡ true
eqb_same m n h = ground arith

covered :
    (h : String) (t : EmailTokenRow) (ts : List EmailTokenRow)
    → t.token_hash ≡ h
    → All (λ (y : EmailTokenRow). t.token_hash ≡ y.token_hash → t ≡ y) ts
    → All (λ x. is_reset h x ≡ true → (is_reset h x && eqb x.expires_at t.expires_at) ≡ true) ts
covered h t [] e k = tt
covered h t (y ∷ ys) e (k, ks) = (
  λ r.
      let named = eq_true y.token_hash h (and_true (y.token_hash == h) (y.purpose == "reset") r) in
      let same = ap (λ (x : EmailTokenRow). x.expires_at) (sym (k (e ∙ sym named))) in
      rw (r, eqb_same y.expires_at t.expires_at same),
  covered h t ys e ks,
)

-- No reset token with this hash is left.
spent :
    (h : String) (t : EmailTokenRow) (hash : String) (db : Db)
    → IsKeyed db.email_tokens
    → find (is_reset h) db.email_tokens ≡ some t
    → find (is_reset h) (after_reset h t hash db).email_tokens ≡ none
spent h t hash db keyed found =
    let named =
      and_true (t.token_hash == h) (t.purpose == "reset")
        (find_test (is_reset h) db.email_tokens found) in
    let alike =
      All-find
        (λ x. All (λ (y : EmailTokenRow). x.token_hash ≡ y.token_hash → x ≡ y) db.email_tokens)
        (is_reset h) db.email_tokens keyed found in
    let test = λ (x : EmailTokenRow). is_reset h x && eqb x.expires_at t.expires_at in
    find-delete_none (is_reset h) (λ x. (x.user_id == t.user_id) && (x.purpose == "reset"))
      (delete_where test db.email_tokens)
      (find-delete_covered (is_reset h) test db.email_tokens
        (covered h t db.email_tokens (eq_true t.token_hash h named) alike))

-- A token that has served cannot serve again: once a reset has succeeded, in tables where the
-- token's hash is a key, no later reset with the same token succeeds on the tables it left,
-- whatever the new password.
pub reset_password_with_token-once :
    (token password : String) (w w' : World) (id : String)
    → IsKeyed w.db.email_tokens
    → Succeeds (reset_password_with_token token password) w id w'
    → (later after : World) (other : String) (id' : String) → later.db ≡ w'.db
    → later.host ≡ w.host
    → reset_password_with_token token other later ≢ (ok id', after)
reset_password_with_token-once token password w w' id keyed h later after other id' same host
      again =
    let (t, hash, found, made, live, user, tables) =
      reset_password_with_token-Succeeds token password w w' id h in
    let (t', hash', found', _, _, _, _) =
      reset_password_with_token-Succeeds token other later after id' again in
    let gone = spent (w.host.sha256_hex token) t hash w.db keyed found in
    let still =
      subst
        (λ (host : Host). find (is_reset (host.sha256_hex token)) later.db.email_tokens ≡ some t')
        host found' in
    let there =
      subst (λ (db : Db). find (is_reset (w.host.sha256_hex token)) db.email_tokens ≡ some t')
        (same ∙ tables) still in
    let clash : none ≡ some t' = sym gone ∙ there in absurd (ground arith)
