-- ===== src/Flowruntime.antt =====
-- internal/flowruntime: from a declared route to the execution plan of its messages.
pub mod Build
mod Valid
mod Tests
pub mod Select
pub mod Resolve
pub mod Selected
pub mod Runnable
mod PlanTests
pub mod Cycle
mod CycleTests
mod StuckTests
