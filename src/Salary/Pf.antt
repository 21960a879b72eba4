-- ===== src/Salary/Pf.antt =====
-- backend/app/engine/pf/pf_calculator.py, over backend/app/engine/dto/pf_dto.py.
pub mod Bounds
use Prim.Native.String.{String}
use smart_salary_india.Base.{ℕ, ◌+◌, ◌-◌, ◌*◌, Bool, not, ◌||◌, min, leb, if◌then◌else◌}
use smart_salary_india.Money.{quantize, rate_unit}

pub record PfCalculationInput : Type 0 where
  pub pf_wage_base_monthly : ℕ
  pub is_pf_applicable : Bool
  pub opt_in_higher_wage : Bool

pub record PfRuleSet : Type 0 where
  pub rule_version_code : String
  pub employee_epf_rate : ℕ
  pub employer_epf_rate : ℕ
  pub employer_eps_rate : ℕ
  pub employer_edli_rate : ℕ
  pub admin_charges_rate : ℕ
  pub statutory_wage_ceiling : ℕ
  pub eps_wage_ceiling : ℕ
  pub vpf_allowed : Bool

pub record PfCalculationResult : Type 0 where
  pub monthly_employee_epf : ℕ
  pub annual_employee_epf : ℕ
  pub monthly_employer_epf : ℕ
  pub annual_employer_epf : ℕ
  pub monthly_employer_eps : ℕ
  pub annual_employer_eps : ℕ
  pub monthly_employer_edli : ℕ
  pub annual_employer_edli : ℕ
  pub total_monthly_employer_contribution : ℕ
  pub total_annual_employer_contribution : ℕ
  pub rule_version_code : String

-- The result where provident fund does not apply.
abbrev pub no_pf : PfRuleSet → PfCalculationResult
no_pf rules = record {
  monthly_employee_epf = 0;
  annual_employee_epf = 0;
  monthly_employer_epf = 0;
  annual_employer_epf = 0;
  monthly_employer_eps = 0;
  annual_employer_eps = 0;
  monthly_employer_edli = 0;
  annual_employer_edli = 0;
  total_monthly_employer_contribution = 0;
  total_annual_employer_contribution = 0;
  rule_version_code = rules.rule_version_code;
}

-- The wage base of the employee's share: capped unless the employee opted for the higher wage.
abbrev pub employee_wage_base : PfCalculationInput → PfRuleSet → ℕ
employee_wage_base inp rules =
    if inp.opt_in_higher_wage
    then inp.pf_wage_base_monthly
    else min inp.pf_wage_base_monthly rules.statutory_wage_ceiling

-- `PfCalculator.calculate_pf`
unfoldable pub calculate_pf : PfCalculationInput → PfRuleSet → PfCalculationResult
calculate_pf inp rules =
    let employee_base = employee_wage_base inp rules in
    let employee_epf = quantize (employee_base * rules.employee_epf_rate) rate_unit in
    let eps_base = min inp.pf_wage_base_monthly rules.eps_wage_ceiling in
    let eps = quantize (eps_base * rules.employer_eps_rate) rate_unit in
    let employer_epf = quantize (employee_base * rules.employee_epf_rate) rate_unit - eps in
    let edli = quantize (eps_base * rules.employer_edli_rate) rate_unit in
    if not inp.is_pf_applicable || leb inp.pf_wage_base_monthly 0 then no_pf rules else record {
      monthly_employee_epf = employee_epf;
      annual_employee_epf = quantize (employee_epf * 12) 1;
      monthly_employer_epf = employer_epf;
      annual_employer_epf = quantize (employer_epf * 12) 1;
      monthly_employer_eps = eps;
      annual_employer_eps = quantize (eps * 12) 1;
      monthly_employer_edli = edli;
      annual_employer_edli = quantize (edli * 12) 1;
      total_monthly_employer_contribution = employer_epf + eps + edli;
      total_annual_employer_contribution =
          quantize (employer_epf * 12) 1 + quantize (eps * 12) 1 + quantize (edli * 12) 1;
      rule_version_code = rules.rule_version_code;
    }
