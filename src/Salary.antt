-- ===== src/Salary.antt =====
-- backend/app/engine/normalizer, pf, professional_tax and validation, and the orchestration of
-- backend/app/services/calculation_service.py.
pub mod Normalizer
pub mod Pf
pub mod Pt
pub mod Invariants
pub mod Service
pub mod Projection
pub mod Tests
