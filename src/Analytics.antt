-- ===== src/Analytics.antt =====
-- backend/app/engine/analytics: what a salary leaves over.
pub mod Anomaly
pub mod Cashflow
pub mod Tests
