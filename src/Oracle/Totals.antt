-- ===== src/Oracle/Totals.antt =====
-- The engine's cess and final rounding give the oracle's total, once the net taxes agree.
use smart_salary_india.Base.{sym, ℕ, ◌+◌, ◌*◌, ◌≤◌, ◌≡◌, arith}
use smart_salary_india.Money.{quantize, round_to_nearest_ten, rate_unit}
use smart_salary_india.Tax.Relief.{calculate_cess, cess_loop}
use smart_salary_india.Seeds.TaxRules.{new_surcharges, old_surcharges, cess}
use smart_salary_india.Oracle.{paise, compute_surcharge, round_total, total_tax}
use smart_salary_india.Oracle.Surcharge.{
  quantize_inr-quantize, net, level, net_new-Level, net_old-Level,
}

-- The engine's total from its net tax on.
abbrev pub engine_total : ℕ → ℕ
engine_total base = round_to_nearest_ten (base + calculate_cess base cess)

cess-quantize : (base : ℕ) → calculate_cess base cess ≡ quantize (base * 400) rate_unit
unfolding calculate_cess cess_loop quantize
cess-quantize base = ground arith

round_total-nearest : (n : ℕ) → round_total (n * 100) ≡ round_to_nearest_ten n
unfolding round_total round_to_nearest_ten quantize
round_total-nearest n = ground arith

-- When the net taxes agree, so do the totals, after cess and rounding.
total-same :
    (x tax base : ℕ)
    → base * 100 ≡ tax * 100 + (compute_surcharge x (tax * 100)).0
    → engine_total base ≡ total_tax x (tax * 100)
unfolding total_tax
total-same x tax base h = rw (← h) (
    rw (quantize_inr-quantize base 4) (
      rw (cess-quantize base) (
        let c = quantize (base * 400) rate_unit in
        let sum : base * 100 + c * 100 ≡ (base + c) * 100 = omega arith in
        rw sum (sym (round_total-nearest (base + c))))))

pub total_new : (x tax : ℕ) → engine_total (net x tax new_surcharges) ≡ total_tax x (tax * 100)
total_new x tax = total-same x tax (net x tax new_surcharges) (net_new-Level x tax (level x))

pub total_old :
    (x tax : ℕ)
    → x ≤ paise 50_000_000
    → engine_total (net x tax old_surcharges) ≡ total_tax x (tax * 100)
total_old x tax w = total-same x tax (net x tax old_surcharges) (net_old-Level x tax w (level x))
