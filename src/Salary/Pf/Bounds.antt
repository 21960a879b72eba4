-- ===== src/Salary/Pf/Bounds.antt =====
-- What backend/app/engine/pf/pf_calculator.py guarantees.
use native.Mathlib.Nat.{mul-le-mul}
use smart_salary_india.Base.{◌+◌, ◌*◌, ◌≤◌, ◌≡◌, true, false, min, arith}
use smart_salary_india.Money.{quantize}
use smart_salary_india.Money.Nearest.{quantize_rate_mono, quantize-whole}
use smart_salary_india.Salary.Pf.{PfCalculationInput, PfRuleSet, employee_wage_base, calculate_pf}

-- Where provident fund applies and the pension rate and base are at most the employee's, the
-- employer's EPF and EPS together are the employee's EPF, by month and by year.
pub employer_share :
    (inp : PfCalculationInput) (rules : PfRuleSet)
    → rules.employer_eps_rate ≤ rules.employee_epf_rate
    → min inp.pf_wage_base_monthly rules.eps_wage_ceiling ≤ employee_wage_base inp rules
    → let r = calculate_pf inp rules in
      (r.monthly_employer_epf + r.monthly_employer_eps ≡ r.monthly_employee_epf)
      × (r.annual_employer_epf + r.annual_employer_eps ≡ r.annual_employee_epf)
      × (r.annual_employee_epf ≡ 12 * r.monthly_employee_epf)
      × (r.total_annual_employer_contribution ≡ 12 * r.total_monthly_employer_contribution)
unfolding calculate_pf
employer_share inp rules rate base =
    let eps_base = min inp.pf_wage_base_monthly rules.eps_wage_ceiling in
    let le = quantize_rate_mono _ _ (mul-le-mul base rate) in
    simp quantize-whole (ground (arith, le))

-- The EPFO rule that the seed stores for each year.
abbrev pub seeded_pf : PfRuleSet
seeded_pf = record {
  rule_version_code = "PFRV-2025-26-v1";
  employee_epf_rate = 1200;
  employer_epf_rate = 367;
  employer_eps_rate = 833;
  employer_edli_rate = 50;
  admin_charges_rate = 50;
  statutory_wage_ceiling = 1_500_000;
  eps_wage_ceiling = 1_500_000;
  vpf_allowed = true;
}

-- Under the seeded rule, where the higher-wage option was not taken, the employer pays at most
-- 1249.50 rupees of EPS and 75 rupees of EDLI a month, and the employee at most 1800 rupees.
pub seeded_pf-caps :
    (inp : PfCalculationInput)
    → inp.opt_in_higher_wage ≡ false
    → let r = calculate_pf inp seeded_pf in
      (r.monthly_employer_eps ≤ 124_950)
      × (r.monthly_employer_edli ≤ 7_500)
      × (r.monthly_employee_epf ≤ 180_000)
unfolding calculate_pf quantize
seeded_pf-caps inp capped = ground arith
