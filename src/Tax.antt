-- ===== src/Tax.antt =====
-- The income tax engine of backend/app/engine/tax, over the rule sets of dto/tax_dto.py.
pub mod Rules
pub mod Slabs
pub mod Relief
pub mod Calculator
pub mod Comparator
pub mod Tests
