-- ===== src/Ingest.antt =====
-- daemon/src/agent_waked/gating.py and ingest.py: from an HTTP request to the router.
pub mod Signature
pub mod Trigger
pub mod RateLimit
pub mod Window
pub mod WakeEvent
pub mod World
pub mod Endpoint
