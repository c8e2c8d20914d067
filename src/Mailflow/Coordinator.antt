-- ===== src/Mailflow/Coordinator.antt =====
-- internal/mailflow/coordinator.go: the stages of one message's transaction. `run` stands in the
-- child `Run`.
pub mod Policy
pub mod Finish
pub mod Deliver
pub mod Run
pub mod Journal
pub mod Safety
pub mod Correct
mod Tests
