-- ===== src/Tools/Gateway.antt =====
-- `DefaultToolGateway` and the catalog it reads, src/tools/gateway.
pub mod Catalog
pub mod Invocation
pub mod Permissions
pub mod Launching
pub mod Handovers
pub mod Failures
pub mod Replays
pub mod Repeats
pub mod Discovery
pub mod Approvals
mod Examples
