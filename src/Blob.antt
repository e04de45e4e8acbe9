-- ===== src/Blob.antt =====
-- internal/server/blobs.go: blobs, which are stored by their digest and reached through the
-- references of a scope. `Blob/Reference` checks the references of a push, `Blob/Store` uploads
-- and downloads.
pub mod Reference
pub mod Owned
pub mod Store
pub mod Files
pub mod Quota
