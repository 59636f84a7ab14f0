-- ===== src/State.antt =====
-- internal/state: the shared state of the gateway and the scheduler.
pub mod Data
pub mod InMem
pub mod Iface
mod Examples
