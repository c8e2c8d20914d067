-- ===== src/Mailflow.antt =====
-- internal/mailflow: the transaction of one message.
pub mod Types
pub mod Plan
pub mod Errors
pub mod Ports
pub mod Coordinator
pub mod Runner
pub mod FileStore
