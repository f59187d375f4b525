-- ===== src/Runtime/Budget/Deadlines.antt =====
-- The deadline of a delegated run, src/runtime/budget/budget-manager.ts.
