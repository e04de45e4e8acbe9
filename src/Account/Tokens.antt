-- ===== src/Account/Tokens.antt =====
-- internal/server/email_tokens.go, password_reset.go, and the checks on a password and an address
-- in middleware.go and helpers.go.
use verstak_sync_server.Prelude.{
  ℕ, ◌+◌, ◌*◌, String, Bool, not, Option, none, some, [], ◌∷◌, ◌++◌, ◌==◌, ◌&&◌, ◌||◌, ltb,
  if◌then◌else◌, find, any, delete_where, update_where, len, trim_space, codes, eqb,
}
use verstak_sync_server.Schema.{Db, UserRow, EmailTokenRow}
use verstak_sync_server.Server.World.{Host, second, stamp, instant}
use verstak_sync_server.Server.Reply.{json_err, internal_error}
use verstak_sync_server.Server.Action.{
  M, ◌>>=◌, ◌>>◌, pure, gets, stop_if, or_stop, exec, exec_unique, query, Row, row_or, draw,
  transaction,
}

-- validatePassword: true if the password is refused.
unfoldable pub password_error : String → Bool
password_error password = ltb (len password) 8 || ltb 256 (len password)

-- normalizeEmailAddress
unfoldable pub normalize_email_address : Host → String → Option String
normalize_email_address host text =
    let value = trim_space text in
    if (value == "") || ltb 254 (len value) || any (λ c. eqb c 13 || eqb c 10) (codes value)
    then none
    else elim (host.parse_address value) [
      | none ↦ none
      | some address ↦ if address == value then some (host.to_lower value) else none
    ]

abbrev pub hour : ℕ
hour = 60 * 60 * second

-- issueEmailToken
unfoldable pub issue_email_token : String → String → ℕ → M String
issue_email_token user_id purpose lifetime = do
  token ← draw
  host ← gets (λ w. w.host)
  now ← gets (λ w. w.now)
  exec_unique (λ db. any (λ t. t.token_hash == host.sha256_hex token) db.email_tokens)
      internal_error
      (λ db. record db {
        email_tokens =
            db.email_tokens
            ++ record {
              token_hash = host.sha256_hex token;
              user_id = user_id;
              purpose = purpose;
              expires_at = stamp (now + lifetime);
              created_at = stamp now;
            }
              ∷ [];
      })
  pure token

abbrev pub is_reset : String → EmailTokenRow → Bool
is_reset h t = (t.token_hash == h) && (t.purpose == "reset")

abbrev pub reset_expired : ℕ → EmailTokenRow → Bool
reset_expired now t = not (ltb now (instant t.expires_at))

abbrev pub delete_reset : String → ℕ → Db → Db
delete_reset h expires_at db = record db {
  email_tokens = delete_where (λ t. is_reset h t && eqb t.expires_at expires_at) db.email_tokens;
}

abbrev pub set_password : String → String → Db → Db
set_password id hash db = record db {
  users = update_where (λ u. u.id == id) (λ u. record u { password_hash = hash }) db.users;
}

abbrev pub delete_resets_of : String → Db → Db
delete_resets_of id db = record db {
  email_tokens = delete_where (λ t. (t.user_id == id) && (t.purpose == "reset")) db.email_tokens;
}

-- How many rows a DELETE or UPDATE changed, as far as the code asks: was there one? The columns
-- that it names are unique.
abbrev pub has_user : String → Db → Bool
has_user id db = any (λ (u : UserRow). u.id == id) db.users

abbrev pub known_user : EmailTokenRow → M String
known_user t = do
  known ← gets (λ w. has_user t.user_id w.db)
  stop_if (not known) (json_err 400)
  exec (delete_resets_of t.user_id)
  pure t.user_id

abbrev pub finish_reset : EmailTokenRow → String → M String
finish_reset t hash = do exec (set_password t.user_id hash); known_user t

abbrev pub change_password : EmailTokenRow → String → M String
change_password t new_password = do
  host ← gets (λ w. w.host)
  hash ← or_stop (host.bcrypt_hash new_password 10) internal_error
  finish_reset t hash

-- A token that has not expired is deleted.
abbrev pub spend_token : String → String → EmailTokenRow → M String
spend_token h new_password t = do
  now ← gets (λ w. w.now)
  stop_if (reset_expired now t) (json_err 400)
  exec (delete_reset h t.expires_at)
  change_password t new_password

abbrev pub spend_row : String → String → Row EmailTokenRow → M String
spend_row h new_password found = do
  t ← row_or found (json_err 400) internal_error
  spend_token h new_password t

-- resetPasswordWithToken: the user, whose token and whose other reset tokens are spent. Every
-- failure of bcrypt, as of the database, is status 500. The row that the DELETE names has just
-- been read in the same transaction, so it counts one row.
unfoldable pub reset_password_with_token : String → String → M String
reset_password_with_token token new_password = transaction (do
  host ← gets (λ w. w.host)
  found ← query (λ db. find (is_reset (host.sha256_hex token)) db.email_tokens)
  spend_row (host.sha256_hex token) new_password found)
