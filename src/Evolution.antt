-- ===== src/Evolution.antt =====
-- The evolution plane, src/evolution.
pub mod StateMachine
