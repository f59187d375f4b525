-- ===== src/Runtime/Budget.antt =====
-- `BudgetTracker` and `BudgetManager`, src/runtime/budget. A manager is the tracker that it
-- extends and its own counters.
pub mod Limits
pub mod Managers
pub mod Tree
pub mod Charging
pub mod Growth
pub mod Ceilings
pub mod Deadlines
mod Examples
