-- ===== src/Account.antt =====
-- User accounts: registration, confirmation, login, and a new password by e-mail.
pub mod Tokens
pub mod Handlers
pub mod Reset
pub mod Forms
