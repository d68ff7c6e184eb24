-- ===== src/Health.antt =====
-- The health of the pipeline: scripts/pipeline/operations/operational_health.py.
pub mod Cron
pub mod Schedule
pub mod Evaluate
pub mod Frameworks
mod Tests
