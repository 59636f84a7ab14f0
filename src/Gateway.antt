-- ===== src/Gateway.antt =====
-- internal/gateway: the HTTP frontend.
pub mod Path
pub mod Pool
pub mod Lifecycle
pub mod Registry
pub mod Serve
pub mod Stats
mod Examples
