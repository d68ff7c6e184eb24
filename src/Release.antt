-- ===== src/Release.antt =====
-- Release records and their promotion: scripts/pipeline/release/lifecycle.py and release_store.py.
pub mod Data
pub mod Choice
pub mod Documents
pub mod Destination
pub mod Publication
pub mod Site
pub mod Lifecycle
pub mod Rehearsal
mod Tests
