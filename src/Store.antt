-- ===== src/Store.antt =====
-- daemon/src/agent_waked/store.py: the durable state of the daemon.
pub mod State
pub mod Queue
pub mod DeadLetters
pub mod Prune
pub mod Dedupe
pub mod Invariant
pub mod Fifo
