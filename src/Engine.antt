-- ===== src/Engine.antt =====
-- The client sync engine (crates/client-core/src/engine.rs).
pub mod Types
pub mod Queue
pub mod Pull
pub mod Push
pub mod Record
pub mod Keys
pub mod Frame
pub mod Queues
pub mod Pulled
pub mod Unpushed
pub mod Checkpoint
pub mod Failover
pub mod Pushed
pub mod Recorded
pub mod Edits
pub mod Coalesced
pub mod Delivered
pub mod Settled
