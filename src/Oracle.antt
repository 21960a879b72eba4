-- ===== src/Oracle.antt =====
-- The tax part of backend/app/engine/oracle/independent_oracle.py.
-- Incomes are in paise. The oracle leaves its slab tax unrounded, so its taxes are in hundredths
-- of a paisa here, the unit in which a whole number of paise times a rate in percent is exact.
pub mod Surcharge
pub mod Slabs
pub mod Totals
pub mod Chain
pub mod Agreement
pub mod ProfessionalTax
pub mod Tests
use smart_salary_india.Base.{ℕ, ◌+◌, ◌-◌, ◌*◌, ◌%◌, ◌||◌, min, leb, ltb, if◌then◌else◌}
use smart_salary_india.Money.{quantize}

-- Whole rupees as hundredths of a paisa, and as paise.
abbrev pub fine : ℕ → ℕ
fine n = n * 10_000

abbrev pub paise : ℕ → ℕ
paise n = n * 100

-- `_quantize_inr` of an amount in hundredths of a paisa times a rate in percent, in the same unit.
unfoldable pub quantize_inr : ℕ → ℕ → ℕ
quantize_inr amount percent = quantize (amount * percent) 10_000 * 100

-- The rate in percent and the threshold in paise of the surcharge bracket.
unfoldable pub bracket : ℕ → ℕ × ℕ
bracket taxable =
    if ltb (paise 20_000_000) taxable
    then (25, paise 20_000_000)
    else if ltb (paise 10_000_000) taxable
    then (15, paise 10_000_000)
    else (10, paise 5_000_000)

unfoldable pub prev_rate : ℕ → ℕ
prev_rate threshold =
    if leb (paise 50_000_000) threshold
    then 25
    else if leb (paise 20_000_000) threshold
    then 15
    else if leb (paise 10_000_000) threshold
    then 10
    else 0

-- `max_allowed_total`
unfoldable pub allowed : ℕ → ℕ → ℕ → ℕ
allowed taxable tax threshold =
    let excess_income = (taxable - threshold) * 100 in
    let tax_on_threshold = tax - quantize_inr excess_income 30 in
    tax_on_threshold + quantize_inr tax_on_threshold (prev_rate threshold) + excess_income

-- `_compute_surcharge`: the surcharge and the marginal relief.
unfoldable pub compute_surcharge : ℕ → ℕ → ℕ × ℕ
compute_surcharge taxable tax =
    let (rate, threshold) = bracket taxable in
    let surcharge = quantize_inr tax rate in
    let most = allowed taxable tax threshold in
    if leb tax 0 || leb taxable (paise 5_000_000)
    then (0, 0)
    else if ltb most (tax + surcharge)
    then (surcharge - (tax + surcharge - most), tax + surcharge - most)
    else (surcharge, 0)

-- Rounding to ten rupees by the remainder, and then to paise.
unfoldable pub round_total : ℕ → ℕ
round_total unrounded =
    let remainder = unrounded % fine 10 in
    quantize
      (if leb (fine 5) remainder then unrounded + (fine 10 - remainder) else unrounded - remainder)
      100

-- The slabs of 2025-26 and 2026-27, new regime.
unfoldable pub slab_tax_new : ℕ → ℕ
slab_tax_new taxable =
    if ltb (paise 2_400_000) taxable
    then (taxable - paise 2_400_000) * 30
      + fine 100_000
      + fine 80_000
      + fine 60_000
      + fine 40_000
      + fine 20_000
    else if ltb (paise 2_000_000) taxable
    then (taxable - paise 2_000_000) * 25 + fine 80_000 + fine 60_000 + fine 40_000 + fine 20_000
    else if ltb (paise 1_600_000) taxable
    then (taxable - paise 1_600_000) * 20 + fine 60_000 + fine 40_000 + fine 20_000
    else if ltb (paise 1_200_000) taxable
    then (taxable - paise 1_200_000) * 15 + fine 40_000 + fine 20_000
    else if ltb (paise 800_000) taxable
    then (taxable - paise 800_000) * 10 + fine 20_000
    else if ltb (paise 400_000) taxable
    then (taxable - paise 400_000) * 5
    else 0

-- The slabs of 2024-25, new regime.
unfoldable pub slab_tax_2024 : ℕ → ℕ
slab_tax_2024 taxable =
    if ltb (paise 1_500_000) taxable
    then (taxable - paise 1_500_000) * 30 + fine 60_000 + fine 30_000 + fine 30_000 + fine 20_000
    else if ltb (paise 1_200_000) taxable
    then (taxable - paise 1_200_000) * 20 + fine 30_000 + fine 30_000 + fine 20_000
    else if ltb (paise 1_000_000) taxable
    then (taxable - paise 1_000_000) * 15 + fine 30_000 + fine 20_000
    else if ltb (paise 700_000) taxable
    then (taxable - paise 700_000) * 10 + fine 20_000
    else if ltb (paise 300_000) taxable
    then (taxable - paise 300_000) * 5
    else 0

-- The slabs of the old regime.
unfoldable pub slab_tax_old : ℕ → ℕ
slab_tax_old taxable =
    if ltb (paise 1_000_000) taxable
    then (taxable - paise 1_000_000) * 30 + fine 100_000 + fine 12_500
    else if ltb (paise 500_000) taxable
    then (taxable - paise 500_000) * 20 + fine 12_500
    else if ltb (paise 250_000) taxable
    then (taxable - paise 250_000) * 5
    else 0

-- `tax_after_rebate` over a rebate threshold, given the rebate that applies up to it.
unfoldable pub tax_after_rebate : ℕ → ℕ → ℕ → ℕ → ℕ
tax_after_rebate taxable threshold slab_tax rebate =
    let excess_income = (taxable - threshold) * 100 in
    if leb taxable threshold
    then slab_tax - rebate
    else if ltb excess_income slab_tax
    then slab_tax - (slab_tax - excess_income)
    else slab_tax

-- Surcharge, cess and rounding, as each year's function ends.
unfoldable pub total_tax : ℕ → ℕ → ℕ
total_tax taxable tax =
    let surcharge = (compute_surcharge taxable tax).0 in
    round_total (tax + surcharge + quantize_inr (tax + surcharge) 4)

-- `total_tax` of `calculate_fy2025_26_new`, to which `calculate_fy2026_27_new` passes on.
unfoldable pub calculate_fy2025_26_new : ℕ → ℕ
calculate_fy2025_26_new gross =
    let taxable = gross - min gross (paise 75_000) in
    let slab_tax = slab_tax_new taxable in
    total_tax taxable (tax_after_rebate taxable (paise 1_200_000) slab_tax slab_tax)

-- `total_tax` of `calculate_fy2024_25_new`.
unfoldable pub calculate_fy2024_25_new : ℕ → ℕ
calculate_fy2024_25_new gross =
    let taxable = gross - min gross (paise 75_000) in
    let slab_tax = slab_tax_2024 taxable in
    total_tax taxable (tax_after_rebate taxable (paise 700_000) slab_tax slab_tax)

-- `total_tax` of `calculate_fy2025_26_old`.
unfoldable pub calculate_fy2025_26_old : ℕ → ℕ → ℕ → ℕ
calculate_fy2025_26_old gross sec_80c sec_80d =
    let deductions =
      min gross (paise 50_000) + min sec_80c (paise 150_000) + min sec_80d (paise 25_000) in
    let taxable = gross - deductions in
    let slab_tax = slab_tax_old taxable in
    total_tax taxable
      (tax_after_rebate taxable (paise 500_000) slab_tax (min slab_tax (fine 12_500)))
