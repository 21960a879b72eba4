-- ===== src/Payslip.antt =====
-- backend/app/engine/payslip: the tolerances and the three-way reconciliation of a payslip.
pub mod Tolerance
pub mod Difference
pub mod Reconciliation
pub mod Counts
pub mod Codes
pub mod Tests
