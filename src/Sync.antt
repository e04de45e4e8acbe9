-- ===== src/Sync.antt =====
-- The sync protocol: internal/server/sync_contract.go (`Sync/Contract`), handleSyncPush
-- (`Sync/Push`) and handleSyncPull (`Sync/Pull`) of handlers_api.go.
pub mod Contract
pub mod Push
pub mod Pull
pub mod Log
pub mod Paging
pub mod Delivery
pub mod Answers
pub mod Validation
