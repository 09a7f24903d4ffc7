-- ===== src/Addressing.antt =====
-- daemon/src/agent_waked/addressing.py: senders, principals, destinations and routes.
pub mod Legacy
pub mod Tables
pub mod Resolve
pub mod Reach
pub mod Narrow
pub mod Identity
