-- ===== src/Router.antt =====
-- daemon/src/agent_waked/router.py: subscribers, delivery, the queue's drain and the acks.
pub mod State
pub mod Subscribe
pub mod Undeliverable
pub mod Send
pub mod Deliver
pub mod Drain
pub mod Acks
