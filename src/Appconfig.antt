-- ===== src/Appconfig.antt =====
-- internal/appconfig: the declared topology, its lookups and its validation.
pub mod Topology
pub mod Lookup
pub mod Validate
pub mod Entries
pub mod Routes
mod Structure
mod Tests
pub mod Platform
pub mod Names
pub mod Urls
pub mod Config
pub mod Overrides
