-- ===== src/EndToEnd.antt =====
-- The client and the hub together: the sync engine (crates/client-core/src/engine.rs) over a
-- network that ends in the routes of the hub (crates/hub-api/src/routes).
pub mod Local
pub mod Sent
pub mod Acknowledged
