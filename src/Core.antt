-- ===== src/Core.antt =====
-- The control plane, src/core.
pub mod Cancellation
pub mod Concurrency
pub mod Policy
pub mod Tasks
