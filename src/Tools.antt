-- ===== src/Tools.antt =====
-- The boundary that tool calls pass, src/tools.
pub mod Idempotency
pub mod Gateway
