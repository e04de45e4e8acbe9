-- ===== src/Sync/Push.antt =====
-- internal/server/handlers_api.go, handleSyncPush.
pub mod Steps
pub mod Handler
pub mod Atomic
pub mod Model
pub mod Refines
pub mod Spec
pub mod Body
pub mod Outcome
pub mod Replay
pub mod Promise
pub mod Kept
pub mod Cases
