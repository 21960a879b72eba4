-- ===== src/Oracle/Chain.antt =====
-- From taxable income on: the engine's chain of slabs, rebate, relief, surcharge and cess, against the
-- oracle's, for a rule set with one rebate rule.
use native.Mathlib.Decide.{dec_lt}
use smart_salary_india.Base.{
  ℕ, ◌-◌, ◌*◌, ◌≤◌, ◌≡◌, refl, ap, ◌∙◌, true, [], ◌∷◌, min, arith, leb, if◌then◌else◌,
}
use smart_salary_india.Base.Int.{pos}
use smart_salary_india.Money.{quantize}
use smart_salary_india.Tax.Rules.{TaxRuleSet, TaxRebateRule}
use smart_salary_india.Tax.Slabs.{calculate_slab_tax}
use smart_salary_india.Tax.Relief.{calculate_rebate, calculate_rebate_marginal_relief}
use smart_salary_india.Tax.Calculator.{liability, after_rebate, rebate_relief}
use smart_salary_india.Seeds.TaxRules.{new_surcharges, old_surcharges, cess}
use smart_salary_india.Oracle.{paise, slab_tax_new, slab_tax_2024, tax_after_rebate, total_tax}
use smart_salary_india.Oracle.Slabs.{part_sum}
use smart_salary_india.Oracle.Surcharge.{net}
use smart_salary_india.Oracle.Totals.{engine_total, total_new, total_old}

-- The tax that one rebate rule with relief leaves of a slab tax.
abbrev left : ℕ → ℕ → ℕ → ℕ → ℕ
left x slab_tax threshold most =
    if leb x threshold then slab_tax - min slab_tax most else min slab_tax (x - threshold)

left-after_rebate :
    (x s : ℕ) (r : TaxRebateRule) (rules : TaxRuleSet)
    → rules.rebates ≡ r ∷ []
    → r.marginal_relief_applicable ≡ true
    → (let rebate = calculate_rebate x (pos s) rules.rebates true in
        after_rebate (pos s) rebate (rebate_relief x (pos s) rebate rules))
      ≡ left x s r.taxable_income_threshold r.max_rebate_amount
unfolding calculate_rebate calculate_rebate_marginal_relief rebate_relief quantize
left-after_rebate x s r rules e a = rw e (ground arith)

-- The total of a rule set with one rebate rule, with relief, and the seeded cess.
liability-total :
    (x s : ℕ) (r : TaxRebateRule) (rules : TaxRuleSet)
    → (calculate_slab_tax x rules.slabs).0 ≡ pos s
    → rules.rebates ≡ r ∷ []
    → r.marginal_relief_applicable ≡ true
    → rules.cess_rules ≡ cess
    → (liability x rules).total_tax
      ≡ engine_total
          (net x (left x s r.taxable_income_threshold r.max_rebate_amount) rules.surcharges)
unfolding liability
liability-total x s r rules slabs e a c =
    rw slabs (rw (left-after_rebate x s r rules e a) (rw c refl))

left-tax_after_rebate :
    (x s threshold most rebate : ℕ)
    → (x ≤ threshold → rebate ≡ min s most * 100)
    → left x s threshold most * 100 ≡ tax_after_rebate x threshold (s * 100) rebate
unfolding tax_after_rebate
left-tax_after_rebate x s threshold most rebate h = elim (dec_lt threshold x) [
  | yes over ↦ ground arith
  | no under ↦ let same = h (omega arith) in ground arith
]

module _ (s t : ℕ) where
  pub new_bound :
      s * 100 ≡ slab_tax_new t → t ≤ paise 1_200_000 → s * 100 ≡ min s (paise 60_000) * 100
  unfolding slab_tax_new
  new_bound e h = ground arith

  pub bound_2024 :
      s * 100 ≡ slab_tax_2024 t → t ≤ paise 700_000 → s * 100 ≡ min s (paise 25_000) * 100
  unfolding slab_tax_2024
  bound_2024 e h = ground arith

-- The engine's chain from taxable income on, against the oracle's.
module _ (rules : TaxRuleSet) (r : TaxRebateRule) (x rebate : ℕ) where
  pub chain-new :
      (let s = part_sum x rules.slabs in
        (calculate_slab_tax x rules.slabs).0 ≡ pos s
        → rules.rebates ≡ r ∷ []
        → r.marginal_relief_applicable ≡ true
        → rules.cess_rules ≡ cess
        → rules.surcharges ≡ new_surcharges
        → (x ≤ r.taxable_income_threshold → rebate ≡ min s r.max_rebate_amount * 100)
        → (liability x rules).total_tax
          ≡ total_tax x (tax_after_rebate x r.taxable_income_threshold (s * 100) rebate))
  chain-new slabs e a c sur h =
      let s = part_sum x rules.slabs in
      let tax = left x s r.taxable_income_threshold r.max_rebate_amount in
      liability-total x s r rules slabs e a c
      ∙ rw sur (total_new x tax)
      ∙ ap (total_tax x)
          (left-tax_after_rebate x s r.taxable_income_threshold r.max_rebate_amount rebate h)

  pub chain-old :
      (let s = part_sum x rules.slabs in
        (calculate_slab_tax x rules.slabs).0 ≡ pos s
        → rules.rebates ≡ r ∷ []
        → r.marginal_relief_applicable ≡ true
        → rules.cess_rules ≡ cess
        → rules.surcharges ≡ old_surcharges
        → x ≤ paise 50_000_000
        → (x ≤ r.taxable_income_threshold → rebate ≡ min s r.max_rebate_amount * 100)
        → (liability x rules).total_tax
          ≡ total_tax x (tax_after_rebate x r.taxable_income_threshold (s * 100) rebate))
  chain-old slabs e a c sur w h =
      let s = part_sum x rules.slabs in
      let tax = left x s r.taxable_income_threshold r.max_rebate_amount in
      liability-total x s r rules slabs e a c
      ∙ rw sur (total_old x tax w)
      ∙ ap (total_tax x)
          (left-tax_after_rebate x s r.taxable_income_threshold r.max_rebate_amount rebate h)
