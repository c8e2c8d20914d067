-- ===== src/Adapters/Spool.antt =====
-- internal/mailflow/adapters/push_spool.go: the spool of messages that were pushed to the program.
pub mod Disk
pub mod Queue
pub mod Ack
pub mod Steps
pub mod Cleanup
pub mod Enqueue
mod Tests
pub mod Loss
pub mod Keeping
pub mod Operations
pub mod Markers
pub mod Replay
pub mod Torn
pub mod Waiting
pub mod Claiming
pub mod Requeueing
