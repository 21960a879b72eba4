-- ===== src/Salary/Invariants.antt =====
-- backend/app/engine/validation/invariants.py
use smart_salary_india.Base.{ltb, Option, none, some, if◌then◌else◌}
use smart_salary_india.Base.Int.{ℤ, pos, ◌-ℤ◌, abs, ltb_ℤ}

-- CalculationInvariantViolationError, by its message.
pub data Violation : Type 0 where
  negative_gross negative_tax negative_pf negative_pt take_home_mismatch : Violation

-- `FinancialInvariantsValidator.validate`; `none` is a return without an exception.
unfoldable pub validate : ℤ → ℤ → ℤ → ℤ → ℤ → ℤ → Option Violation
validate annual_gross other_deductions total_tax employee_pf annual_pt take_home =
    let expected = annual_gross -ℤ total_tax -ℤ employee_pf -ℤ annual_pt -ℤ other_deductions in
    if ltb_ℤ annual_gross (pos 0)
    then some negative_gross
    else if ltb_ℤ total_tax (pos 0)
    then some negative_tax
    else if ltb_ℤ employee_pf (pos 0)
    then some negative_pf
    else if ltb_ℤ annual_pt (pos 0)
    then some negative_pt
    else if ltb 100 (abs (take_home -ℤ expected))
    then some take_home_mismatch
    else none
