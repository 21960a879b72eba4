-- ===== src/Tax/Comparator.antt =====
-- backend/app/engine/tax/regime_comparator.py: both regimes for one salary. The note, a text made
-- from the amounts, is left out.
use smart_salary_india.Base.{ℕ, ◌+◌, ◌-◌, ◌≡◌, none, ltb, if◌then◌else◌, arith, min, max}
use smart_salary_india.Tax.Rules.{TaxRegime, old, new, TaxCalculationInput, TaxRuleSet}
use smart_salary_india.Tax.Calculator.{TaxResult, calculate_tax}

pub record Comparison : Type 0 where
  pub old_res : TaxResult
  pub new_res : TaxResult
  pub tax_diff : ℕ
  pub recommended : TaxRegime

-- The input for the old regime: the standard deduction's override is not passed on.
abbrev pub old_input : TaxCalculationInput → TaxCalculationInput
old_input inp = record inp { regime = old; standard_deduction_override = none }

-- The input for the new regime, with no claims.
abbrev pub new_input : TaxCalculationInput → TaxCalculationInput
new_input inp = record inp {
  regime = new;
  standard_deduction_override = none;
  section_80c = 0;
  section_80d = 0;
  other_exemptions = 0;
  other_deductions = 0;
}

-- The recommendation for the two totals; a tie goes to the new regime.
abbrev pub recommend : ℕ → ℕ → TaxRegime
recommend old_tax new_tax =
    if ltb new_tax old_tax then new else if ltb old_tax new_tax then old else new

-- `RegimeComparator.compare`
unfoldable pub compare : TaxCalculationInput → TaxRuleSet → TaxRuleSet → Comparison
compare inp old_rules new_rules =
    let old_res = calculate_tax (old_input inp) old_rules in
    let new_res = calculate_tax (new_input inp) new_rules in
    let old_tax = old_res.total_annual_tax_liability in
    let new_tax = new_res.total_annual_tax_liability in
    record {
      old_res = old_res;
      new_res = new_res;
      tax_diff = old_tax - new_tax + (new_tax - old_tax);
      recommended = recommend old_tax new_tax;
    }

-- The total of a regime in a comparison.
abbrev pub total_of : TaxRegime → Comparison → ℕ
total_of old c = c.old_res.total_annual_tax_liability
total_of new c = c.new_res.total_annual_tax_liability

-- The recommended regime has the smaller of the two totals, and the difference is what the larger
-- one has on top of it.
pub compare-min :
    (inp : TaxCalculationInput) (old_rules new_rules : TaxRuleSet)
    → let c = compare inp old_rules new_rules in
      (total_of c.recommended c ≡ min (total_of old c) (total_of new c))
      × (total_of c.recommended c + c.tax_diff ≡ max (total_of old c) (total_of new c))
unfolding compare
compare-min inp old_rules new_rules = ground arith
