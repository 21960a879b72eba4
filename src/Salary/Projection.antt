-- ===== src/Salary/Projection.antt =====
-- backend/app/services/salary_service.py: the twelve paychecks and the figures shown for a
-- calculation. The year that the financial year starts with is an argument, and the disclaimer is left
-- out.
pub mod Laws
use Prim.Native.String.{String}
use text.Mathlib.Text.{◌==◌ as str_eq}
use smart_salary_india.Base.{
  ℕ, suc, ◌+◌, ◌-◌, ◌*◌, Bool, ◌&&◌, List, [], ◌∷◌, min, ltb, if◌then◌else◌, map,
}
use smart_salary_india.Base.Int.{ℤ, pos_part, neg_part, sub_ℕ}
use smart_salary_india.Money.{quantize, quantize_ℤ, rate_unit}
use smart_salary_india.Salary.Service.{VerifiedCalculation}

pub record MonthlyPaycheckRow : Type 0 where
  pub month_index : ℕ
  pub month_name : String
  pub calendar_year : ℕ
  pub gross_salary : ℕ
  pub estimated_tax_allocation : ℕ
  pub employee_epf : ℕ
  pub professional_tax : ℕ
  pub other_deductions : ℕ
  pub net_take_home : ℕ
  pub employer_epf : ℕ
  pub employer_eps : ℕ
  pub employer_edli : ℕ
  pub total_employer_contribution : ℕ

-- `enumerate(MONTH_NAMES)`
abbrev pub months : List (ℕ × String)
months =
    (0, "Apr")
    ∷ (1, "May")
    ∷ (2, "Jun")
    ∷ (3, "Jul")
    ∷ (4, "Aug")
    ∷ (5, "Sep")
    ∷ (6, "Oct")
    ∷ (7, "Nov")
    ∷ (8, "Dec")
    ∷ (9, "Jan")
    ∷ (10, "Feb")
    ∷ (11, "Mar")
    ∷ []

-- The month-aware professional tax.
unfoldable pub pt_amount : String → String → ℕ → ℕ
pt_amount state_code month monthly =
    if str_eq state_code "MH" && str_eq month "Feb"
    then 30_000
    else if str_eq state_code "DL"
    then 0
    else monthly

-- The body of the loop. `max(0, ...)` is the subtraction of natural numbers.
unfoldable pub paycheck_row : ℕ → String → VerifiedCalculation → ℕ × String → MonthlyPaycheckRow
paycheck_row start_year state_code c (i, name) =
    let gross = quantize c.normalized.annual_gross 12 in
    let other = quantize c.normalized.other_employee_deductions 12 in
    let total = c.pf.total_monthly_employer_contribution in
    let eps = min 124_950 (quantize (gross * 833) rate_unit) in
    let edli = if ltb 0 total then 7_500 else 0 in
    let pt = pt_amount state_code name c.pt.monthly_pt in
    record {
      month_index = suc i;
      month_name = name;
      calendar_year = if ltb i 9 then start_year else start_year + 1;
      gross_salary = gross;
      estimated_tax_allocation = c.tax.estimated_monthly_tax;
      employee_epf = c.pf.monthly_employee_epf;
      professional_tax = pt;
      other_deductions = other;
      net_take_home = gross - c.tax.estimated_monthly_tax - c.pf.monthly_employee_epf - pt - other;
      employer_epf = total - eps - edli;
      employer_eps = eps;
      employer_edli = edli;
      total_employer_contribution = total;
    }

-- `generate_monthly_schedule`
unfoldable pub generate_monthly_schedule :
    ℕ → String → VerifiedCalculation → List MonthlyPaycheckRow
generate_monthly_schedule start_year state_code c =
    map (paycheck_row start_year state_code c) months

pub record AnalyticalMetrics : Type 0 where
  pub effective_take_home_rate : ℤ
  pub effective_tax_rate : ℕ
  pub total_statutory_deductions : ℕ
  pub indicative_employment_cost : ℕ

-- `compute_analytical_metrics`; a rate is a number of hundredths of a percent.
unfoldable pub compute_analytical_metrics : VerifiedCalculation → AnalyticalMetrics
compute_analytical_metrics c =
    let gross = c.normalized.annual_gross in
    let tax = c.tax.total_annual_tax_liability in
    let home = c.take_home_annual in
    record {
      effective_take_home_rate =
          if ltb 0 gross
          then quantize_ℤ (sub_ℕ (pos_part home * 10_000) (neg_part home * 10_000)) gross
          else sub_ℕ 0 0;
      effective_tax_rate =
          if ltb 0 c.tax.taxable_income then quantize (tax * 10_000) c.tax.taxable_income else 0;
      total_statutory_deductions = tax + c.pf.annual_employee_epf + c.pt.annual_pt;
      indicative_employment_cost = gross + c.pf.total_annual_employer_contribution;
    }
