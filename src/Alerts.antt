-- ===== src/Alerts.antt =====
-- The life cycle of alerts: scripts/pipeline/operations/alert_delivery.py.
pub mod Data
pub mod Delivery
pub mod Cycle
pub mod Send
pub mod Report
mod Tests
