-- ===== src/Desktop.antt =====
-- The desktop client (crates/client-desktop/src).
pub mod Notifier
pub mod Files
pub mod FsStore
pub mod Poll
pub mod Scan
pub mod Reconcile
