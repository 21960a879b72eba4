-- ===== src/Payslip/Tolerance.antt =====
-- backend/app/engine/payslip/tolerance_policy.py, in paise and ten-thousandths.
-- The quotient of the relative check is compared by its product, which the 28 digits of the
-- decimal context keep exact for amounts of this size.
use smart_salary_india.Base.{ℕ, ◌*◌, ◌==◌, Bool, true, ◌&&◌, leb, ltb, if◌then◌else◌}
use smart_salary_india.Base.Int.{ℤ, pos, pos_part, ◌-ℤ◌, ltb_ℤ, abs}

-- The names of the compared fields.
pub data Field : Type 0 where
  gross_earnings basic hra employee_epf : Field
  professional_tax tds total_deductions net_pay : Field

pub record ComponentTolerance : Type 0 where
  pub absolute_tolerance_rupees : ℕ
  pub relative_tolerance_pct : ℕ
  pub is_critical_on_exceed : Bool

abbrev tolerance : ℕ → ℕ → ComponentTolerance
tolerance absolute relative = record {
  absolute_tolerance_rupees = absolute;
  relative_tolerance_pct = relative;
  is_critical_on_exceed = true;
}

-- `get_tolerance`: all the fields have a policy, so that the default is never taken.
unfoldable pub get_tolerance : Field → ComponentTolerance
get_tolerance gross_earnings = tolerance 1000 10
get_tolerance basic = tolerance 500 10
get_tolerance hra = tolerance 500 10
get_tolerance employee_epf = tolerance 100 0
get_tolerance professional_tax = tolerance 0 0
get_tolerance tds = tolerance 500 50
get_tolerance net_pay = tolerance 200 0
get_tolerance total_deductions = tolerance 200 0

pub data Evaluation : Type 0 where
  exact tolerable_rounding critical_mismatch : Evaluation

-- The status of a difference that is within a tolerance or not.
unfoldable pub judge : ComponentTolerance → ℕ → ℤ → Evaluation
judge tol delta expected =
    if delta == 0
    then exact
    else if leb delta tol.absolute_tolerance_rupees
    then tolerable_rounding
    else if ltb_ℤ (pos 0) expected
        && ltb 0 tol.relative_tolerance_pct
        && leb (delta * 10_000) (tol.relative_tolerance_pct * pos_part expected)
    then tolerable_rounding
    else critical_mismatch

-- `evaluate_difference`
unfoldable pub evaluate_difference : Field → ℤ → ℤ → Evaluation × ℕ
evaluate_difference field actual expected =
    let delta = abs (actual -ℤ expected) in (judge (get_tolerance field) delta expected, delta)
