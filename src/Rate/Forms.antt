-- ===== src/Rate/Forms.antt =====
-- internal/server/rate.go and smtp.go as the forms of the pages use them.
use verstak_sync_server.Prelude.{String, [], ◌∷◌, ◌++◌, ◌==◌, find, delete_where}
use verstak_sync_server.Schema.{Db, SettingRow}
use verstak_sync_server.Server.Request.{Request}
use verstak_sync_server.Server.Action.{M, ◌>>=◌, pure, query, row}
use verstak_sync_server.Locale.{web_error}
use verstak_sync_server.Rate.{rate_retry_after, refuse_after}

-- allowWebRate
unfoldable pub allow_web_rate : Request → String → String → M (Unit {0})
unfolding rate_retry_after
allow_web_rate r action account = do
  refused ← rate_retry_after r action account
  refuse_after (web_error 429 "error.rateLimited") refused

-- smtpGet: the empty text where there is no such row, or the query fails.
unfoldable pub smtp_get : String → M String
smtp_get key = do
  found ← query (λ db. find (λ (s : SettingRow). s.key == key) db.smtp_config)
  elim found [ row s ↦ pure s.value | _ ↦ pure "" ]

-- The statement of smtpSet.
abbrev pub put_setting : String → String → Db → Db
put_setting key value db = record db {
  smtp_config =
      delete_where (λ (s : SettingRow). s.key == key) db.smtp_config
      ++ record { key = key; value = value } ∷ [];
}
