-- ===== src/Lib.antt =====
-- The Verstak sync server: a Go program that keeps the operation log of note vaults for the
-- devices of their users, in an SQLite database.
--
-- Parts. A device pairs with a user's password and gets a token (`Device/Enroll`). Each later
-- request is authenticated by the token's hash (`Device/Auth`), which gives the scope, a user and
-- a vault. In its scope a device pushes operations, which are numbered by a counter that all
-- vaults share, and pulls those after a cursor, page by page (`Sync`). Binary files are uploaded
-- apart and are referred to by their SHA-256 (`Blob`). Users register, confirm an address, log in
-- and reset a password (`Account`); the web pages work with sessions and a guard against forged
-- requests (`Session`, `Locale`). Administrators manage users, devices and settings over pages and
-- an API (`Admin`). Failed logins are slowed down (`Rate`), forwarding headers are believed of
-- configured proxies only (`Proxy`), and expired rows and stale uploads are removed (`Retention`). At the start the
-- settings are put together (`Config`) and old tables are migrated (`Schema`).
--
-- Files and code, below internal/server:
--   Schema              schema.go, the tables; Schema/Old and Schema/Migrate have
--                       migrateServerSchema
--   Config              config.go; Config/Normalize has normalize, SetAdmin and CheckAdmin,
--                       Config/Start what cmd/server/main.go does with the settings
--   Server/Reply        helpers.go, the answers
--   Server/Request      what a handler reads, and decodeJSONBody of helpers.go
--   Server/World        server.go's Server, with the clock, the random source and the libraries
--   Server/Action       how a handler runs: statements, transactions, early returns
--   Audit, Proxy        auditLog and clientIP of server.go, proxy.go, requestIsHTTPS
--   Rate                ratelimit.go, rate.go; Rate/Forms has the limits of the pages, Rate/Digits
--                       strconvItoa
--   Session/Store,Csrf  sessions.go, csrf.go
--   Locale              web_locale.go
--   Device/Auth         middleware.go
--   Device/Credentials, Device/Enroll, Device/Manage
--                       tokens.go, devices.go and the client handlers of handlers_api.go
--   Account/Tokens      email_tokens.go, password_reset.go, and the checks on passwords and mail
--   Account/Handlers    handlers_auth.go
--   Account/Forms, Device/Forms, Device/Overview
--                       handlers_web_user.go
--   Health, Home        health.go; the first page and handleLocale of web_render.go, the answers on
--                       health of handlers_api.go
--   Admin/Secrets, Admin/Lists, Admin/Views, Admin/Trail, Admin/Vaults
--                       web_admin.go: one-time secrets, pages of lists and their rows
--   Admin/Reads, Admin/Listings
--                       the pages of web_admin.go and the listings of handlers_admin.go
--   Admin/Users         what an action on a user does to the tables
--   Admin/Api           the API of handlers_admin.go
--   Admin/Actions, Admin/SettingsForm, Admin/Pages
--                       the forms of web_admin.go and the login of handlers_admin.go
--   Blob/Reference,Store  blobs.go
--   Sync/Contract       sync_contract.go
--   Sync/Push/Steps,Handler  handleSyncPush of handlers_api.go
--   Sync/Pull           handleSyncPull
--   Retention           retention.go
-- The other files hold proofs: Server/Rollback, Faults, Calm, Success, Frame and Changed are about
-- any handler, Blob/Owned and the rest of Sync about pushes and pulls (Sync/Push/Promise is what a
-- push promises, in terms of lists alone, Kept that it keeps it), the rest about their
-- folder: Device/Paired about a new device, Device/Private about who sees devices, Admin/Browse
-- about all pages of a list, Admin/Refused, Barred and ShutOut about who cannot come in, Confirmed
-- and Device/Dashboard about what a form has shown before it changes anything, Session/Frame and
-- Rate/Frame about what they leave. The runs and examples are below Tests.
-- Names are the source's in the spelling of this language: handleSyncPush is handle_sync_push.
--
-- The model. A handler is a function from the state to an answer and the state; a table is a list
-- of rows in the order of insertion; SQL's WHERE, UPDATE and DELETE are functions on lists. Any
-- SQL statement may fail, Begin and Commit included: a stream of Booleans says which ones do, and
-- a transaction that does not commit gives back the tables it began with. The same stream says
-- which calls of the file system fail in the cleanup. SQLite orders the same rows in the same way
-- each time, so that the pages of a list fit together. The clock is read once
-- in a request, in nanoseconds, and a stored instant is a number of seconds. Requests run one
-- after the other; the database has a single connection, which orders their transactions so.
-- Integers that a client or a file may make negative are signed, lengths are in bytes of UTF-8,
-- and the sum that is compared with a blob quota wraps at 2 ^ 63. SHA-256, bcrypt, the JSON, mail
-- and URL parsers, network addresses, case folding and the random source are parameters of the
-- state (`Host`, `draws`). `drain` pulls on fuel; more fuel than operations to come is enough.
-- SQLite's LIKE and ORDER BY and the sending of mail are parameters too.
--
-- Not modelled: the texts of messages, headers and the cookies that are set; templates and
-- translations, with the session that renderPage looks up to choose a menu; the conversation with
-- a mail server; handleAdminAPIUsers, a listing; routes, the listener and signals; failures of the
-- file system, but for those of the cleanup, of the settings and what the statistics read; a migration in which the database fails, which
-- ends the program.
pub mod Prelude
pub mod Schema
pub mod Config
pub mod Server
pub mod Audit
pub mod Proxy
pub mod Rate
pub mod Session
pub mod Device
pub mod Locale
pub mod Health
pub mod Home
pub mod Retention
pub mod Account
pub mod Admin
pub mod Blob
pub mod Sync
pub mod Tests
