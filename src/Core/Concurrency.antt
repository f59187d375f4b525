-- ===== src/Core/Concurrency.antt =====
-- Resource locks and the concurrency gate, src/core/concurrency.
pub mod Locks
pub mod Gate
pub mod Registry
