-- ===== src/Tax/Tests.antt =====
-- Runs and examples of the tax engine on the seeded rules.
use smart_salary_india.Base.{◌+◌, ◌-◌, ◌≡◌, refl, min, arith}
use smart_salary_india.Base.Int.{pos, ◌≤ℤ◌, ◌+ℤ◌}
use smart_salary_india.Money.{quantize, quantize_ℤ}
use smart_salary_india.Tax.Rules.{new, old, TaxCalculationInput, TaxRuleSet, tax_input}
use smart_salary_india.Tax.Slabs.{
  calculate_slab_tax, slab_loop, slab_line, taxable_in_slab, tax_in_slab, portion,
}
use smart_salary_india.Tax.Slabs.Sum.{slab_sum, line_sum, calculate_slab_tax-sum}
use smart_salary_india.Tax.Slabs.Order.{IsChain, calculate_slab_tax_mono, calculate_slab_tax_bounds}
use smart_salary_india.Tax.Relief.{calculate_surcharge_marginal_relief, max_allowed_total}
use smart_salary_india.Tax.Relief.Bounds.{surcharge_relief-min}
use smart_salary_india.Seeds.{rule_set}
use smart_salary_india.Seeds.TaxRules.{rupees, new_slabs, old_slabs, new_version, old_version}

abbrev new_rules : TaxRuleSet
new_rules = rule_set "2025-26" new (new_version "TRV-2025-26-NEW-v1" "2025-26")

abbrev old_rules : TaxRuleSet
old_rules = rule_set "2025-26" old (old_version "TRV-2025-26-OLD-v1" "2025-26")

abbrev ten_lakh : TaxCalculationInput
ten_lakh = tax_input "2025-26" old (rupees 1_000_000) (rupees 150_000) 0

calculate_slab_tax-new_slabs :
    (calculate_slab_tax (rupees 1_000_000) new_slabs).0 ≡ pos (rupees 40_000)
unfolding calculate_slab_tax slab_loop slab_line taxable_in_slab tax_in_slab portion quantize_ℤ
    quantize ◌+ℤ◌
calculate_slab_tax-new_slabs = refl

calculate_slab_tax-sum_example :
    ((calculate_slab_tax (rupees 1_000_000) new_slabs).0 ≡ slab_sum (rupees 1_000_000) new_slabs)
    × (line_sum (calculate_slab_tax (rupees 1_000_000) new_slabs).1
        ≡ (calculate_slab_tax (rupees 1_000_000) new_slabs).0)
calculate_slab_tax-sum_example = calculate_slab_tax-sum (rupees 1_000_000) new_slabs

old_slabs-chained : IsChain 0 old_slabs
old_slabs-chained = ground arith

calculate_slab_tax_mono_example :
    (calculate_slab_tax (rupees 600_000) old_slabs).0
    ≤ℤ (calculate_slab_tax (rupees 1_200_000) old_slabs).0
calculate_slab_tax_mono_example =
    calculate_slab_tax_mono (rupees 600_000) (rupees 1_200_000) old_slabs (ground arith)
      (omega arith)

calculate_slab_tax_bounds_example :
    (pos 0 ≤ℤ (calculate_slab_tax (rupees 1_200_000) old_slabs).0)
    × ((calculate_slab_tax (rupees 1_200_000) old_slabs).0 ≤ℤ pos (rupees 1_200_000))
calculate_slab_tax_bounds_example =
    calculate_slab_tax_bounds (rupees 1_200_000) old_slabs old_slabs-chained

surcharge_relief-min_example :
    rupees 1_110_000
      + rupees 111_000
      - calculate_surcharge_marginal_relief
          (rupees 5_100_000)
          (rupees 1_110_000)
          (rupees 111_000)
          new_rules.surcharges
    ≡ min (rupees 1_110_000 + rupees 111_000) (
        max_allowed_total
          (rupees 1_110_000)
          (rupees 5_000_000)
          (rupees 5_100_000 - rupees 5_000_000))
surcharge_relief-min_example =
    surcharge_relief-min (rupees 5_100_000) (rupees 1_110_000) (rupees 111_000) new_rules.surcharges
      refl refl
