-- ===== src/Core/Policy.antt =====
-- Tool metadata and the policy engine, src/core/tools/tool-contract.ts and src/core/policy.
pub mod Tools
pub mod Profiles
pub mod Rules
pub mod ArgRules
pub mod Engine
pub mod Silence
pub mod Denial
pub mod Enforcement
pub mod Floors
pub mod Broker
mod Examples
