-- ===== src/Tax/Slabs/Order.antt =====
-- Bounds and monotony of the slab tax of backend/app/engine/tax/slabs.py.
use native.Mathlib.Nat.{mul-le-mul, le_refl}
use smart_salary_india.Base.{
  ℕ, ◌-◌, ◌*◌, ◌≤◌, ◌≡◌, refl, true, false, inl, inr, none, some, List, [], ◌∷◌, min, arith, leb,
  Bool-cases, Option-cases, All,
}
use smart_salary_india.Base.Int.{pos, ◌≤ℤ◌, int_laws}
use smart_salary_india.Money.{quantize, scale, rate_unit}
use smart_salary_india.Money.Nearest.{quantize_rate_mono, quantize_rate-le}
use smart_salary_india.Tax.Rules.{TaxSlabRule}
use smart_salary_india.Tax.Slabs.{portion, tax_in_slab, calculate_slab_tax}
use smart_salary_india.Tax.Slabs.Sum.{slab_sum, calculate_slab_tax-sum}

-- A slab that does not end below its start.
abbrev pub IsOrdered : TaxSlabRule → Type 0
IsOrdered s = elim s.to_amount [ none ↦ Unit {0} | some to_amt ↦ s.from_amount ≤ to_amt ]

-- The part of an income that lies in a slab.
abbrev pub part : ℕ → TaxSlabRule → ℕ
part x s = elim s.to_amount [
  | none ↦ x - s.from_amount
  | some to_amt ↦ min x to_amt - s.from_amount
]

part-zero : (x : ℕ) (s : TaxSlabRule) → leb x s.from_amount ≡ true → part x s ≡ 0
part-zero x s h = ground arith

portion-part :
    (x : ℕ) (s : TaxSlabRule)
    → IsOrdered s
    → leb x s.from_amount ≡ false
    → portion x s ≡ pos (part x s)
unfolding portion
portion-part x s w h = ground arith

scale-pos : (n rate : ℕ) → scale (pos n) rate ≡ pos (n * rate)
scale-pos n rate = ground arith

pub tax_in_slab-part :
    (x : ℕ) (s : TaxSlabRule)
    → IsOrdered s
    → tax_in_slab x s ≡ pos (quantize (part x s * s.tax_rate) rate_unit)
unfolding tax_in_slab
tax_in_slab-part x s w = elim (Bool-cases (leb x s.from_amount)) [
  | inl e ↦ rw (e, part-zero x s e) (ground arith)
  | inr e ↦ rw (e, portion-part x s w e, scale-pos (part x s) s.tax_rate) refl
]

tax_in_slab-le-part :
    (x : ℕ) (s : TaxSlabRule)
    → IsOrdered s
    → s.tax_rate ≤ rate_unit
    → (pos 0 ≤ℤ tax_in_slab x s) × (tax_in_slab x s ≤ℤ pos (part x s))
tax_in_slab-le-part x s w h =
    rw (tax_in_slab-part x s w) (omega (arith, quantize_rate-le (part x s) s.tax_rate h))

part_mono : (x y : ℕ) (s : TaxSlabRule) → x ≤ y → part x s ≤ part y s
part_mono x y s h = ground arith

tax_in_slab_mono :
    (x y : ℕ) (s : TaxSlabRule) → IsOrdered s → x ≤ y → tax_in_slab x s ≤ℤ tax_in_slab y s
tax_in_slab_mono x y s w h =
    rw (tax_in_slab-part x s w, tax_in_slab-part y s w)
      (omega (arith, quantize_rate_mono _ _ (mul-le-mul (part_mono x y s h) (le_refl s.tax_rate))))

slab_sum_mono :
    (x y : ℕ) (ss : List TaxSlabRule) → All IsOrdered ss → x ≤ y → slab_sum x ss ≤ℤ slab_sum y ss
slab_sum_mono x y [] w h = omega arith
slab_sum_mono x y (s ∷ ss) w h =
    omega (int_laws, tax_in_slab_mono x y s w.0 h, slab_sum_mono x y ss w.1 h)

-- If no slab ends below its start, a larger taxable income never has a smaller slab tax.
pub calculate_slab_tax_mono :
    (x y : ℕ) (ss : List TaxSlabRule)
    → All IsOrdered ss
    → x ≤ y
    → (calculate_slab_tax x ss).0 ≤ℤ (calculate_slab_tax y ss).0
calculate_slab_tax_mono x y ss w h =
    rw ((calculate_slab_tax-sum x ss).0, (calculate_slab_tax-sum y ss).0) (slab_sum_mono x y ss w h)

-- Slabs that start at `lo` or above, follow one another without overlap, and have rates up to 100%.
abbrev pub IsChain : ℕ → List TaxSlabRule → Type 0
IsChain lo [] = Unit
IsChain lo (s ∷ ss) = (lo ≤ s.from_amount) × (s.tax_rate ≤ rate_unit) × (elim s.to_amount [
  | none ↦ ss ≡ []
  | some to_amt ↦ (s.from_amount ≤ to_amt) × IsChain to_amt ss
])

slab_sum_bounds :
    (x lo : ℕ) (ss : List TaxSlabRule)
    → IsChain lo ss
    → (pos 0 ≤ℤ slab_sum x ss) × (slab_sum x ss ≤ℤ pos (x - lo))
slab_sum_bounds x lo [] w = omega arith
slab_sum_bounds x lo (s ∷ ss) (from_ok, rate_ok, tail) = elim (Option-cases s.to_amount) [
  | inl e ↦
      let nil : ss ≡ [] = rw e at tail in
      let own = tax_in_slab-le-part x s (rw e tt) rate_ok in
      let bound : part x s ≤ x - lo = rw e (omega arith) in rw nil (omega (int_laws, own, bound))
  | inr (to_amt, e) ↦
      let rest : (s.from_amount ≤ to_amt) × IsChain to_amt ss = rw e at tail in
      let own = tax_in_slab-le-part x s (rw e rest.0) rate_ok in
      let bound : part x s ≡ min x to_amt - s.from_amount = rw e refl in
      omega (int_laws, own, bound, slab_sum_bounds x to_amt ss rest.1)
]

-- Over slabs that follow one another without overlap from zero on, with rates of at most 100%, the
-- slab tax is not negative and is not above the taxable income.
pub calculate_slab_tax_bounds :
    (x : ℕ) (ss : List TaxSlabRule)
    → IsChain 0 ss
    → (pos 0 ≤ℤ (calculate_slab_tax x ss).0) × ((calculate_slab_tax x ss).0 ≤ℤ pos x)
calculate_slab_tax_bounds x ss w =
    rw (calculate_slab_tax-sum x ss).0 (omega (arith, slab_sum_bounds x 0 ss w))
