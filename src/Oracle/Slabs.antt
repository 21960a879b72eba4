-- ===== src/Oracle/Slabs.antt =====
-- The engine's slab tax under the seeded slabs is the oracle's, for incomes of whole rupees.
use native.Mathlib.Decide.{dec_lt}
use smart_salary_india.Base.{ℕ, ◌+◌, ◌*◌, ◌≤◌, ◌<◌, ◌≡◌, List, [], ◌∷◌, arith, All, refl, ◌∙◌}
use smart_salary_india.Base.Int.{pos, ◌+ℤ◌}
use smart_salary_india.Money.{quantize, rate_unit}
use smart_salary_india.Tax.Rules.{TaxSlabRule}
use smart_salary_india.Tax.Slabs.{calculate_slab_tax}
use smart_salary_india.Tax.Slabs.Sum.{slab_sum, calculate_slab_tax-sum}
use smart_salary_india.Tax.Slabs.Order.{IsOrdered, part, tax_in_slab-part}
use smart_salary_india.Seeds.TaxRules.{new_slabs, new_slabs_2024, old_slabs}
use smart_salary_india.Oracle.{paise, slab_tax_new, slab_tax_2024, slab_tax_old}

-- The sum over the slabs, as a number.
abbrev pub part_sum : ℕ → List TaxSlabRule → ℕ
part_sum x [] = 0
part_sum x (s ∷ ss) = quantize (part x s * s.tax_rate) rate_unit + part_sum x ss

slab_sum-part_sum :
    (x : ℕ) (ss : List TaxSlabRule) → All IsOrdered ss → slab_sum x ss ≡ pos (part_sum x ss)
unfolding ◌+ℤ◌
slab_sum-part_sum x [] w = refl
slab_sum-part_sum x (s ∷ ss) w =
    rw (tax_in_slab-part x s w.0) (rw (slab_sum-part_sum x ss w.1) (ground arith))

pub slab_tax-part_sum :
    (x : ℕ) (ss : List TaxSlabRule)
    → All IsOrdered ss
    → (calculate_slab_tax x ss).0 ≡ pos (part_sum x ss)
slab_tax-part_sum x ss w = (calculate_slab_tax-sum x ss).0 ∙ slab_sum-part_sum x ss w

new_part_sum_low :
    (rupees : ℕ)
    → rupees ≤ 1_200_000
    → part_sum (paise rupees) new_slabs * 100 ≡ slab_tax_new (paise rupees)
unfolding quantize slab_tax_new
new_part_sum_low rupees h = ground arith

new_part_sum_high :
    (rupees : ℕ)
    → 1_200_000 < rupees
    → part_sum (paise rupees) new_slabs * 100 ≡ slab_tax_new (paise rupees)
unfolding quantize slab_tax_new
new_part_sum_high rupees h = ground arith

pub new_part_sum :
    (rupees : ℕ) → part_sum (paise rupees) new_slabs * 100 ≡ slab_tax_new (paise rupees)
new_part_sum rupees = elim (dec_lt 1_200_000 rupees) [
  | yes h ↦ new_part_sum_high rupees h
  | no h ↦ new_part_sum_low rupees (omega arith)
]

pub part_sum_2024 :
    (rupees : ℕ) → part_sum (paise rupees) new_slabs_2024 * 100 ≡ slab_tax_2024 (paise rupees)
unfolding quantize slab_tax_2024
part_sum_2024 rupees = ground arith

pub old_part_sum :
    (rupees : ℕ) → part_sum (paise rupees) old_slabs * 100 ≡ slab_tax_old (paise rupees)
unfolding quantize slab_tax_old
old_part_sum rupees = ground arith
