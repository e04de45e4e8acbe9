-- ===== src/Session.antt =====
-- Sessions of the web pages and of the user API, and the check against forged requests.
pub mod Store
pub mod Csrf
pub mod Safety
pub mod Frame
pub mod Guarded
pub mod Lifetime
