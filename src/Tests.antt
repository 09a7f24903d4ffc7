-- ===== src/Tests.antt =====
-- Runs of the theorems at concrete configurations, events and databases.
mod Fixtures
mod Store
mod Addressing
mod Ingest
mod Endpoint
mod Router
mod Outbox
mod Delivery
mod Socket
mod Config
mod Signing
mod Redrive
mod Frames
