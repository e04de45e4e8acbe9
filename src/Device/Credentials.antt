-- ===== src/Device/Credentials.antt =====
-- The user name and password that a request gives, as handleClientPair, handleDeviceRegister,
-- handleAuthTest and handleUserLogin check them, and the parts of a token that are kept.
use verstak_sync_server.Prelude.{
  ℕ, suc, zero, ◌-◌, String, Bool, not, ◌==◌, ◌||◌, if◌then◌else◌, find,
}
use Prim.Native.String.{◌++◌}
use verstak_sync_server.Schema.{UserRow}
use verstak_sync_server.Server.World.{Host}
use verstak_sync_server.Server.Reply.{json_err}
use verstak_sync_server.Server.Action.{M, ◌>>=◌, ◌>>◌, pure, stop, gets, query, Row, row}

abbrev pub is_named : Host → String → UserRow → Bool
is_named host login u = (u.username == login) || (u.email == host.to_lower login)

-- `report` is what the handler writes to the audit log before it answers.
abbrev pub refuse_if : Bool → M (Unit {0}) → ℕ → M (Unit {0})
refuse_if bad report status = if bad then (report >> stop (json_err status)) else pure tt

-- The row that is found, or none, with the tests in the order of the source.
abbrev pub admit_user : (String → String → M (Unit {0})) → String → Row UserRow → M UserRow
admit_user report password (row u) = do
  host ← gets (λ w. w.host)
  refuse_if u.blocked (report u.id "pair: user blocked") 403
  refuse_if (not u.confirmed) (report u.id "pair: email not confirmed") 403
  refuse_if (not (host.bcrypt_matches u.password_hash password))
      (report u.id "pair: wrong password") 401
  pure u
admit_user report password Row.no_rows = do report "" "pair: user not found"; stop (json_err 401)
admit_user report password Row.broken = do report "" "pair: user not found"; stop (json_err 401)

unfoldable pub check_credentials : (String → String → M (Unit {0})) → String → String → M UserRow
check_credentials report login password = do
  host ← gets (λ w. w.host)
  found ← query (λ db. find (is_named host login) db.users)
  admit_user report password found

abbrev first_chars : ℕ → String → String
first_chars zero s = String.[]
first_chars (suc n) String.[] = String.[]
first_chars (suc n) (String.◌∷◌ c s) = String.◌∷◌ c (first_chars n s)

abbrev chars : String → ℕ
chars String.[] = 0
chars (String.◌∷◌ c s) = suc (chars s)

abbrev skip_chars : ℕ → String → String
skip_chars zero s = s
skip_chars (suc n) String.[] = String.[]
skip_chars (suc n) (String.◌∷◌ c s) = skip_chars n s

-- genDeviceToken: the first eight and the last four digits of the token that was drawn.
abbrev pub gen_device_token : String → String × String
gen_device_token token = (first_chars 8 token, skip_chars (chars token - 4) token)

-- `a + b` on texts, for the modules that append lists.
abbrev pub concat : String → String → String
concat a b = a ++ b
