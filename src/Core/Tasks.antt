-- ===== src/Core/Tasks.antt =====
-- The task graph and its scheduler, src/core/tasks.
pub mod Graph
pub mod Scheduler
