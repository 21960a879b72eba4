-- ===== src/Tax/Slabs.antt =====
-- backend/app/engine/tax/slabs.py: the progressive tax, slab by slab.
pub mod Sum
pub mod Order
use smart_salary_india.Base.{
  ℕ, ◌+◌, Bool, Option, none, some, List, [], ◌∷◌, ◌++◌, min, leb, if◌then◌else◌, sorted,
}
use smart_salary_india.Base.Int.{ℤ, pos, sub_ℕ, ◌+ℤ◌}
use smart_salary_india.Money.{quantize_ℤ, scale, rate_unit}
use smart_salary_india.Tax.Rules.{TaxSlabRule}

-- One dict of `slab_breakdowns`.
pub record SlabLine : Type 0 where
  pub slab_order : ℕ
  pub from_amount : ℕ
  pub to_amount : Option ℕ
  pub tax_rate : ℕ
  pub taxable_in_slab : ℤ
  pub tax_in_slab : ℤ

-- `min(taxable_income, to_amt) - from_amt`, or up to the income in the last slab
unfoldable pub portion : ℕ → TaxSlabRule → ℤ
portion taxable slab = elim slab.to_amount [
  | none ↦ sub_ℕ taxable slab.from_amount
  | some to_amt ↦ sub_ℕ (min taxable to_amt) slab.from_amount
]

unfoldable pub taxable_in_slab : ℕ → TaxSlabRule → ℤ
unfolding portion
taxable_in_slab taxable slab = if leb taxable slab.from_amount then pos 0 else portion taxable slab

unfoldable pub tax_in_slab : ℕ → TaxSlabRule → ℤ
unfolding portion quantize_ℤ
tax_in_slab taxable slab =
    if leb taxable slab.from_amount
    then pos 0
    else quantize_ℤ (scale (portion taxable slab) slab.tax_rate) rate_unit

unfoldable pub slab_line : ℕ → TaxSlabRule → SlabLine
unfolding taxable_in_slab tax_in_slab
slab_line taxable slab = record {
  slab_order = slab.slab_order;
  from_amount = slab.from_amount;
  to_amount = slab.to_amount;
  tax_rate = slab.tax_rate;
  taxable_in_slab = taxable_in_slab taxable slab;
  tax_in_slab = tax_in_slab taxable slab;
}

-- The `for` loop, over `total_tax` and `slab_breakdowns`.
unfoldable pub slab_loop : ℕ → List TaxSlabRule → ℤ → List SlabLine → ℤ × List SlabLine
unfolding slab_line tax_in_slab ◌+ℤ◌
slab_loop taxable [] total lines = (total, lines)
slab_loop taxable (slab ∷ slabs) total lines =
    slab_loop taxable slabs
      (if leb taxable slab.from_amount then total else total +ℤ tax_in_slab taxable slab)
      (lines ++ (slab_line taxable slab ∷ []))

unfoldable pub calculate_slab_tax : ℕ → List TaxSlabRule → ℤ × List SlabLine
unfolding slab_loop
calculate_slab_tax taxable slabs =
    slab_loop taxable (sorted (λ slab. slab.slab_order) slabs) (pos 0) []
