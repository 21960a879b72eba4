-- ===== src/Tax/Relief/Bounds.antt =====
-- What the reliefs of backend/app/engine/tax guarantee, for any rules.
use smart_salary_india.Base.{
  ℕ, ◌+◌, ◌-◌, ◌≤◌, ◌<◌, ◌≡◌, inl, inr, Bool, true, some, List, [], ◌∷◌, min, arith, find?,
  Option-cases,
}
use smart_salary_india.Base.Int.{ℤ, pos_part}
use smart_salary_india.Money.Nearest.{quantize_rate-le}
use smart_salary_india.Tax.Rules.{TaxRebateRule, TaxSurchargeRule}
use smart_salary_india.Tax.Relief.{
  calculate_rebate, calculate_rebate_marginal_relief, in_bracket, max_allowed_total,
  calculate_surcharge_marginal_relief,
}

-- The rebate is at most the slab tax.
pub calculate_rebate-le :
    (x : ℕ) (slab_tax : ℤ) (rules : List TaxRebateRule) (b : Bool)
    → calculate_rebate x slab_tax rules b ≤ pos_part slab_tax
unfolding calculate_rebate
calculate_rebate-le x slab_tax rules b = ground arith

-- With the relief of the first rule that grants one, an income above that rule's threshold is left
-- with a tax of the slab tax or of the excess over the threshold, whichever is less.
pub rebate_relief-min :
    (x : ℕ) (slab_tax : ℤ) (rules : List TaxRebateRule) {r : TaxRebateRule}
    → find? (λ q. q.marginal_relief_applicable) rules ≡ some r
    → r.taxable_income_threshold < x
    → pos_part slab_tax - calculate_rebate_marginal_relief x slab_tax rules
      ≡ min (pos_part slab_tax) (x - r.taxable_income_threshold)
unfolding calculate_rebate_marginal_relief
rebate_relief-min x slab_tax [] e h = cc
rebate_relief-min x slab_tax (q ∷ rules) e h = rw e (ground arith)

-- The total that is allowed at a threshold is never below the tax itself.
pub tax-le-max_allowed_total :
    (tax threshold excess : ℕ) → tax ≤ max_allowed_total tax threshold excess
unfolding max_allowed_total
tax-le-max_allowed_total tax threshold excess =
    omega (arith, quantize_rate-le excess 3000 (omega arith))

-- For any surcharge rules the relief takes back at most the surcharge.
pub surcharge_relief-le :
    (x tax surcharge : ℕ) (rules : List TaxSurchargeRule)
    → calculate_surcharge_marginal_relief x tax surcharge rules ≤ surcharge
unfolding calculate_surcharge_marginal_relief
surcharge_relief-le x tax surcharge rules = elim (Option-cases (find? (in_bracket x) rules)) [
  | inl e ↦ rw e (ground arith)
  | inr (r, e) ↦
      rw e (ground (arith, tax-le-max_allowed_total tax r.from_income (x - r.from_income)))
]

-- If the first rule whose bracket holds the income grants relief, tax and surcharge less the
-- relief are the total without relief or the total allowed at the bracket's lower end, whichever is less.
pub surcharge_relief-min :
    (x tax surcharge : ℕ) {r : TaxSurchargeRule} (rules : List TaxSurchargeRule)
    → find? (in_bracket x) rules ≡ some r
    → r.marginal_relief_applicable ≡ true
    → tax + surcharge - calculate_surcharge_marginal_relief x tax surcharge rules
      ≡ min (tax + surcharge) (max_allowed_total tax r.from_income (x - r.from_income))
unfolding calculate_surcharge_marginal_relief
surcharge_relief-min x tax surcharge {r} [] e h = cc
surcharge_relief-min x tax surcharge {r} (q ∷ rules) e h =
    rw e (ground (arith, tax-le-max_allowed_total tax r.from_income (x - r.from_income)))
