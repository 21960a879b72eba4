-- ===== src/Tax/Calculator.antt =====
-- backend/app/engine/tax/tax_calculator.py: the statutory pipeline from gross salary to tax.
use smart_salary_india.Base.{
  ℕ, ◌+◌, ◌-◌, ◌==◌, Bool, true, Option, none, some, List, min, if◌then◌else◌, find?,
}
use smart_salary_india.Base.Int.{ℤ, pos_part}
use smart_salary_india.Money.{quantize, round_to_nearest_ten}
use smart_salary_india.Tax.Rules.{TaxCalculationInput, TaxDeductionRule, TaxRuleSet, contains}
use smart_salary_india.Tax.Slabs.{calculate_slab_tax}
use smart_salary_india.Tax.Relief.{
  calculate_rebate, calculate_rebate_marginal_relief, calculate_surcharge,
  calculate_surcharge_marginal_relief, calculate_cess,
}

-- The dict that `calculate_tax` returns.
pub record TaxResult : Type 0 where
  pub annual_gross_salary : ℕ
  pub standard_deduction : ℕ
  pub claimed_80c : ℕ
  pub claimed_80d : ℕ
  pub total_deductions : ℕ
  pub taxable_income : ℕ
  pub slab_tax : ℤ
  pub section_87a_rebate : ℕ
  pub rebate_marginal_relief : ℕ
  pub tax_after_rebate : ℕ
  pub surcharge : ℕ
  pub surcharge_marginal_relief : ℕ
  pub health_education_cess : ℕ
  pub total_annual_tax_liability : ℕ
  pub estimated_monthly_tax : ℕ

-- `rule.max_limit if rule and rule.max_limit else 0`, for the first rule that passes a test
unfoldable pub limit_of : (TaxDeductionRule → Bool) → List TaxDeductionRule → ℕ
limit_of p rules = elim (find? p rules) [
  | none ↦ 0
  | some d ↦ elim d.max_limit [ none ↦ 0 | some limit ↦ limit ]
]

unfoldable pub standard_deduction : ℕ → Option ℕ → List TaxDeductionRule → ℕ
standard_deduction gross override rules = elim override [
  | none ↦ min gross (limit_of (λ d. d.is_standard_deduction) rules)
  | some amount ↦ min gross amount
]

-- The chain from taxable income: steps 2 to 6.
pub record Liability : Type 0 where
  pub slab_tax : ℤ
  pub rebate : ℕ
  pub rebate_relief : ℕ
  pub tax_after_rebate : ℕ
  pub surcharge : ℕ
  pub surcharge_relief : ℕ
  pub cess : ℕ
  pub total_tax : ℕ

-- `max(0, slab_tax - rebate - rebate_marginal_relief)`: a negative slab tax gives zero
abbrev pub after_rebate : ℤ → ℕ → ℕ → ℕ
after_rebate slab_tax rebate relief = pos_part slab_tax - rebate - relief

-- `tax_after_rebate + surcharge - surcharge_marginal_relief`
abbrev pub net_tax : ℕ → ℕ → ℕ → ℕ
net_tax tax surcharge relief = tax + surcharge - relief

unfoldable pub rebate_relief : ℕ → ℤ → ℕ → TaxRuleSet → ℕ
rebate_relief taxable slab_tax rebate rules =
    if rebate == 0 then calculate_rebate_marginal_relief taxable slab_tax rules.rebates else 0

unfoldable pub liability : ℕ → TaxRuleSet → Liability
liability taxable rules =
    let slab_tax = (calculate_slab_tax taxable rules.slabs).0 in
    let rebate = calculate_rebate taxable slab_tax rules.rebates true in
    let relief = rebate_relief taxable slab_tax rebate rules in
    let tax = after_rebate slab_tax rebate relief in
    let surcharge = calculate_surcharge taxable tax rules.surcharges in
    let surcharge_relief =
      calculate_surcharge_marginal_relief taxable tax surcharge rules.surcharges in
    let base = net_tax tax surcharge surcharge_relief in
    let cess = calculate_cess base rules.cess_rules in
    record {
      slab_tax = slab_tax;
      rebate = rebate;
      rebate_relief = relief;
      tax_after_rebate = tax;
      surcharge = surcharge;
      surcharge_relief = surcharge_relief;
      cess = cess;
      total_tax = round_to_nearest_ten (base + cess);
    }

unfoldable pub total_deductions : TaxCalculationInput → TaxRuleSet → ℕ
total_deductions inp rules =
    standard_deduction (quantize inp.annual_gross_salary 1) inp.standard_deduction_override
      rules.deductions
    + min inp.section_80c (limit_of (λ d. contains d.deduction_code "80C") rules.deductions)
    + min inp.section_80d (limit_of (λ d. contains d.deduction_code "80D") rules.deductions)
    + inp.other_deductions
    + inp.other_exemptions

-- `max(0, gross_salary - total_deductions)`
unfoldable pub taxable_income : TaxCalculationInput → TaxRuleSet → ℕ
taxable_income inp rules = quantize inp.annual_gross_salary 1 - total_deductions inp rules

unfoldable pub calculate_tax : TaxCalculationInput → TaxRuleSet → TaxResult
calculate_tax inp rules =
    let gross = quantize inp.annual_gross_salary 1 in
    let l = liability (taxable_income inp rules) rules in
    record {
      annual_gross_salary = gross;
      standard_deduction =
          standard_deduction gross inp.standard_deduction_override rules.deductions;
      claimed_80c =
          min inp.section_80c (limit_of (λ d. contains d.deduction_code "80C") rules.deductions);
      claimed_80d =
          min inp.section_80d (limit_of (λ d. contains d.deduction_code "80D") rules.deductions);
      total_deductions = total_deductions inp rules;
      taxable_income = taxable_income inp rules;
      slab_tax = l.slab_tax;
      section_87a_rebate = l.rebate;
      rebate_marginal_relief = l.rebate_relief;
      tax_after_rebate = l.tax_after_rebate;
      surcharge = l.surcharge;
      surcharge_marginal_relief = l.surcharge_relief;
      health_education_cess = l.cess;
      total_annual_tax_liability = l.total_tax;
      estimated_monthly_tax = quantize l.total_tax 12;
    }
