-- ===== src/Cache.antt =====
-- The disk cache of internal/cache/cache.go.
pub mod Disk
pub mod Metadata
pub mod Store
pub mod Request
pub mod Expiration
pub mod Load
pub mod Commit
pub mod Capture
pub mod Transport
pub mod Scan
