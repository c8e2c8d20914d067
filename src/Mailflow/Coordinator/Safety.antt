-- ===== src/Mailflow/Coordinator/Safety.antt =====
-- coordinator.go: why each call of a run is in order, stage by stage.
pub mod Calls
pub mod Ending
pub mod Loop
pub mod Planning
pub mod Whole
