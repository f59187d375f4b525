-- ===== src/Runtime.antt =====
-- The runtime's own state, src/runtime.
pub mod TaskMachine
pub mod Budget
