-- ===== src/Server.antt =====
-- internal/server/server.go and helpers.go: what a request works on, and how a handler runs.
-- `Server/Reply` has the answers, `Server/World` the state, `Server/Action` the statements that a
-- handler is made of, and `Server/Rollback` what a transaction keeps.
pub mod Reply
pub mod World
pub mod Request
pub mod Action
pub mod Rollback
pub mod Faults
pub mod Calm
pub mod Success
pub mod Frame
pub mod Changed
