-- ===== src/Oracle/Agreement.antt =====
-- The engine, on the seeded rules, computes the oracle's tax.
use mathlib.Core.Option
use smart_salary_india.Base.{ℕ, ◌+◌, ◌-◌, ◌*◌, ◌≤◌, ◌≡◌, refl, ap, Option, some, min, arith}
use smart_salary_india.Money.{quantize}
use Prim.Native.String.{String}
use smart_salary_india.Tax.Rules.{TaxRegime, TaxRuleSet, new, old, tax_input}
use smart_salary_india.Tax.Calculator.{
  liability, calculate_tax, taxable_income, total_deductions, standard_deduction, limit_of,
}
use smart_salary_india.Seeds.{get_tax_rule_set, rule_set, rebate_dto}
use smart_salary_india.Seeds.TaxRules.{
  seeded, new_slabs, new_slabs_2024, old_slabs, rebate_87a, new_version, new_version_2024,
  old_version,
}
use smart_salary_india.Oracle.{
  paise, fine, slab_tax_new, slab_tax_2024, slab_tax_old, tax_after_rebate, total_tax,
  calculate_fy2025_26_new, calculate_fy2024_25_new, calculate_fy2025_26_old,
}
use smart_salary_india.Oracle.Slabs.{
  part_sum, slab_tax-part_sum, new_part_sum, part_sum_2024, old_part_sum,
}
use smart_salary_india.Oracle.Chain.{chain-new, chain-old, new_bound, bound_2024}

-- The tax that the engine computes for one input, on the rules that a query finds.
abbrev pub engine_tax : String → TaxRegime → ℕ → ℕ → ℕ → Option ℕ
engine_tax financial_year regime gross sec_80c sec_80d =
    Option.map
      (λ rules.
        (calculate_tax (tax_input financial_year regime gross sec_80c sec_80d)
          rules).total_annual_tax_liability)
      (get_tax_rule_set seeded financial_year regime)

abbrev new_rules : String → String → TaxRuleSet
new_rules code financial_year = rule_set financial_year new (new_version code financial_year)

abbrev rules_2024 : TaxRuleSet
rules_2024 = rule_set "2024-25" new new_version_2024

abbrev old_rules : String → String → TaxRuleSet
old_rules code financial_year = rule_set financial_year old (old_version code financial_year)

taxable_new :
    (code year : String) (r a b : ℕ)
    → taxable_income (tax_input year new (paise r) a b) (new_rules code year)
      ≡ paise (r - min r 75_000)
unfolding taxable_income total_deductions standard_deduction limit_of quantize
taxable_new code year r a b = omega arith

taxable_2024 :
    (r a b : ℕ)
    → taxable_income (tax_input "2024-25" new (paise r) a b) rules_2024 ≡ paise (r - min r 75_000)
unfolding taxable_income total_deductions standard_deduction limit_of quantize
taxable_2024 r a b = omega arith

taxable_old :
    (code year : String) (r a b : ℕ)
    → taxable_income (tax_input year old (paise r) (paise a) (paise b)) (old_rules code year)
      ≡ paise (r - (min r 50_000 + min a 150_000 + min b 25_000))
unfolding taxable_income total_deductions standard_deduction limit_of quantize
taxable_old code year r a b = omega arith

total_new_rules :
    (code year : String) (t : ℕ)
    → let tax = slab_tax_new (paise t) in
      (liability (paise t) (new_rules code year)).total_tax
      ≡ total_tax (paise t) (tax_after_rebate (paise t) (paise 1_200_000) tax tax)
total_new_rules code year t =
    let s = part_sum (paise t) new_slabs in
    rw (← new_part_sum t) (
      chain-new (new_rules code year) (rebate_dto (rebate_87a (paise 1_200_000) (paise 60_000)))
        (paise t) (s * 100) (slab_tax-part_sum (paise t) new_slabs (ground arith)) refl refl refl
        refl (new_bound s (paise t) (new_part_sum t)))

total_2024 :
    (t : ℕ)
    → let tax = slab_tax_2024 (paise t) in
      (liability (paise t) rules_2024).total_tax
      ≡ total_tax (paise t) (tax_after_rebate (paise t) (paise 700_000) tax tax)
total_2024 t =
    let s = part_sum (paise t) new_slabs_2024 in
    rw (← part_sum_2024 t) (
      chain-new rules_2024 (rebate_dto (rebate_87a (paise 700_000) (paise 25_000))) (paise t)
        (s * 100) (slab_tax-part_sum (paise t) new_slabs_2024 (ground arith)) refl refl refl refl
        (bound_2024 s (paise t) (part_sum_2024 t)))

total_old_rules :
    (code year : String) (t : ℕ)
    → t ≤ 50_000_000
    → let tax = slab_tax_old (paise t) in
      (liability (paise t) (old_rules code year)).total_tax
      ≡ total_tax (paise t) (tax_after_rebate (paise t) (paise 500_000) tax (min tax (fine 12_500)))
total_old_rules code year t w =
    let s = part_sum (paise t) old_slabs in
    rw (← old_part_sum t) (
      chain-old (old_rules code year) (rebate_dto (rebate_87a (paise 500_000) (paise 12_500)))
        (paise t) (min (s * 100) (fine 12_500))
        (slab_tax-part_sum (paise t) old_slabs (ground arith)) refl refl refl refl (omega arith)
        (λ h. omega arith))

-- For every salary in whole rupees, and whatever is claimed under 80C and 80D, the engine finds
-- the independent oracle's tax, on the rules that it reads for the new regime of 2025-26 and of
-- 2026-27.
pub agrees_new :
    (rupees sec_80c sec_80d : ℕ)
    → (engine_tax "2025-26" new (paise rupees) sec_80c sec_80d
        ≡ some (calculate_fy2025_26_new (paise rupees)))
      × (engine_tax "2026-27" new (paise rupees) sec_80c sec_80d
          ≡ some (calculate_fy2025_26_new (paise rupees)))
unfolding get_tax_rule_set calculate_tax calculate_fy2025_26_new
agrees_new r a b =
    let t = r - min r 75_000 in
    let x : paise r - min (paise r) (paise 75_000) ≡ paise t = omega arith in
    rw x (
      ap some (
          rw (taxable_new "TRV-2025-26-NEW-v1" "2025-26" r a b)
            (total_new_rules "TRV-2025-26-NEW-v1" "2025-26" t)),
      ap some (
          rw (taxable_new "TRV-2026-27-NEW-v1" "2026-27" r a b)
            (total_new_rules "TRV-2026-27-NEW-v1" "2026-27" t)),
    )

-- For every salary in whole rupees the engine finds the oracle's tax for the new regime of 2024-25.
pub agrees_new_2024 :
    (rupees sec_80c sec_80d : ℕ)
    → engine_tax "2024-25" new (paise rupees) sec_80c sec_80d
      ≡ some (calculate_fy2024_25_new (paise rupees))
unfolding get_tax_rule_set calculate_tax calculate_fy2024_25_new
agrees_new_2024 r a b =
    let t = r - min r 75_000 in
    let x : paise r - min (paise r) (paise 75_000) ≡ paise t = omega arith in
    rw x (ap some (rw (taxable_2024 r a b) (total_2024 t)))

-- For every salary of up to five crore rupees and every claim under 80C and 80D, all in whole
-- rupees, the engine finds the oracle's tax for the old regime of 2025-26.
pub agrees_old :
    (rupees sec_80c sec_80d : ℕ)
    → rupees ≤ 50_000_000
    → engine_tax "2025-26" old (paise rupees) (paise sec_80c) (paise sec_80d)
      ≡ some (calculate_fy2025_26_old (paise rupees) (paise sec_80c) (paise sec_80d))
unfolding get_tax_rule_set calculate_tax calculate_fy2025_26_old
agrees_old r a b w =
    let t = r - (min r 50_000 + min a 150_000 + min b 25_000) in
    let x : paise r
          - (min (paise r) (paise 50_000)
              + min (paise a) (paise 150_000)
              + min (paise b) (paise 25_000))
        ≡ paise t =
      omega arith in
    rw x (
      ap some (
        rw (taxable_old "TRV-2025-26-OLD-v1" "2025-26" r a b)
          (total_old_rules "TRV-2025-26-OLD-v1" "2025-26" t (omega arith))))
