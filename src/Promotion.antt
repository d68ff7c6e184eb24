-- ===== src/Promotion.antt =====
-- The promotion of a batch of frameworks: scripts/pipeline/release/promotion_batch.py, with
-- verify_promotion_pair.py, verify_promotion_pairs.py and verify_stable.py.
pub mod Reference
pub mod Evidence
pub mod Registry
pub mod Work
pub mod Stable
pub mod Batch
pub mod Run
mod Tests
