-- ===== src/Tax/Relief.antt =====
-- backend/app/engine/tax/rebates.py, surcharge.py, marginal_relief.py and cess.py.
pub mod Bounds
use smart_salary_india.Base.{
  ℕ, ◌+◌, ◌-◌, ◌*◌, Bool, true, false, not, ◌&&◌, ◌||◌, Option, none, some, List, [], ◌∷◌, min, leb,
  ltb, if◌then◌else◌, find?,
}
use smart_salary_india.Base.Int.{ℤ, pos, pos_part, leb_ℤ}
use smart_salary_india.Money.{quantize, rate_unit}
use smart_salary_india.Tax.Rules.{TaxRebateRule, TaxSurchargeRule, TaxCessRule}

abbrev pub is_empty {ℓ} : {A : Type ℓ} → List A → Bool
is_empty [] = true
is_empty (_ ∷ _) = false

-- `RebateCalculator.calculate_rebate`
unfoldable pub calculate_rebate : ℕ → ℤ → List TaxRebateRule → Bool → ℕ
unfolding quantize
calculate_rebate taxable slab_tax rules is_resident =
    if not is_resident || leb_ℤ slab_tax (pos 0) || is_empty rules
    then 0
    else elim (find? (λ r. leb taxable r.taxable_income_threshold) rules) [
      | none ↦ 0
      | some r ↦ quantize (min (pos_part slab_tax) r.max_rebate_amount) 1
    ]

-- `MarginalReliefCalculator.calculate_rebate_marginal_relief`
unfoldable pub calculate_rebate_marginal_relief : ℕ → ℤ → List TaxRebateRule → ℕ
unfolding quantize
calculate_rebate_marginal_relief taxable slab_tax rules =
    if is_empty rules || leb_ℤ slab_tax (pos 0)
    then 0
    else elim (find? (λ r. r.marginal_relief_applicable) rules) [
      | none ↦ 0
      | some r ↦
          let excess_income = taxable - r.taxable_income_threshold in
          if leb taxable r.taxable_income_threshold
          then 0
          else if ltb excess_income (pos_part slab_tax)
          then quantize (pos_part slab_tax - excess_income) 1
          else 0
    ]

-- `r.from_income <= taxable_income and (r.to_income is None or taxable_income <= r.to_income)`
abbrev pub in_bracket : ℕ → TaxSurchargeRule → Bool
in_bracket taxable r =
    leb r.from_income taxable
    && elim r.to_income [ none ↦ true | some to_income ↦ leb taxable to_income ]

-- `SurchargeCalculator.calculate_surcharge`
unfoldable pub calculate_surcharge : ℕ → ℕ → List TaxSurchargeRule → ℕ
unfolding quantize
calculate_surcharge taxable tax_after_rebate rules =
    if leb tax_after_rebate 0 || is_empty rules
    then 0
    else elim (find? (in_bracket taxable) rules) [
      | none ↦ 0
      | some r ↦ quantize (tax_after_rebate * r.surcharge_rate) rate_unit
    ]

-- The rate of the tier below a threshold, in paise: 5 crore, 2 crore and 1 crore rupees.
unfoldable pub prev_surcharge_rate : ℕ → ℕ
prev_surcharge_rate threshold =
    if leb 5_000_000_000 threshold
    then 2500
    else if leb 2_000_000_000 threshold
    then 1500
    else if leb 1_000_000_000 threshold
    then 1000
    else 0

-- `tax_on_threshold`: 30% of the excess is taken off, at zero at least
unfoldable pub tax_on_threshold : ℕ → ℕ → ℕ
unfolding quantize
tax_on_threshold tax_on_income excess_income =
    tax_on_income - quantize (excess_income * 3000) rate_unit

-- `max_allowed_total` at a threshold, for an income in excess of it
unfoldable pub max_allowed_total : ℕ → ℕ → ℕ → ℕ
unfolding tax_on_threshold prev_surcharge_rate quantize
max_allowed_total tax_on_income threshold excess_income =
    let on_threshold = tax_on_threshold tax_on_income excess_income in
    on_threshold + quantize (on_threshold * prev_surcharge_rate threshold) rate_unit + excess_income

-- `MarginalReliefCalculator.calculate_surcharge_marginal_relief`
unfoldable pub calculate_surcharge_marginal_relief : ℕ → ℕ → ℕ → List TaxSurchargeRule → ℕ
unfolding quantize
calculate_surcharge_marginal_relief taxable tax_on_income surcharge rules =
    if leb surcharge 0 || is_empty rules then 0 else elim (find? (in_bracket taxable) rules) [
      | none ↦ 0
      | some r ↦
          let allowed = max_allowed_total tax_on_income r.from_income (taxable - r.from_income) in
          let total = tax_on_income + surcharge in
          if not r.marginal_relief_applicable
          then 0
          else if ltb allowed total
          then quantize (total - allowed) 1
          else 0
    ]

-- The loop of `CessCalculator.calculate_cess`.
unfoldable pub cess_loop : ℕ → List TaxCessRule → ℕ → ℕ
unfolding quantize
cess_loop tax_base [] total = total
cess_loop tax_base (rule ∷ rules) total =
    cess_loop tax_base rules (total + quantize (tax_base * rule.cess_rate) rate_unit)

unfoldable pub calculate_cess : ℕ → List TaxCessRule → ℕ
unfolding cess_loop
calculate_cess tax_base rules =
    if leb tax_base 0 || is_empty rules then 0 else cess_loop tax_base rules 0
