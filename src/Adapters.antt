-- ===== src/Adapters.antt =====
-- internal/mailflow/adapters: where messages come from, how they are processed, where they go.
pub mod Spool
pub mod Envelope
pub mod Polling
pub mod Push
pub mod Processors
pub mod Consumers
