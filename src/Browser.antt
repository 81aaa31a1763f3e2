-- ===== src/Browser.antt =====
-- The web client (crates/client-web).
pub mod Opfs
