-- ===== src/Money.antt =====
-- backend/app/engine/common/money.py and rounding.py: the roundings of the engine.
-- An amount is a number of paise (hundredths of a rupee, the columns' Numeric(18, 2)) and a rate a
-- number of ten-thousandths (the columns' Numeric(10, 4)), neither of them negative; ℤ stands
-- where the code can go below zero.
pub mod Nearest
use smart_salary_india.Base.{ℕ, suc, ◌+◌, ◌*◌, ◌/◌}
use smart_salary_india.Base.Int.{ℤ, pos, negsuc, pos_part, neg_part, sub_ℕ}

-- `quantize_currency` of the value n / d paise: the nearest whole paisa, a tie goes up.
unfoldable pub quantize : ℕ → ℕ → ℕ
quantize n d = (2 * n + d) / (2 * d)

-- ROUND_HALF_UP rounds by magnitude: a tie goes away from zero.
unfoldable pub quantize_ℤ : ℤ → ℕ → ℤ
unfolding quantize
quantize_ℤ (pos n) d = pos (quantize n d)
quantize_ℤ (negsuc n) d = sub_ℕ 0 (quantize (suc n) d)

-- amount * rate, in ten-thousandths of a paisa
abbrev pub scale : ℤ → ℕ → ℤ
scale a rate = sub_ℕ (pos_part a * rate) (neg_part a * rate)

abbrev pub rate_unit : ℕ
rate_unit = 10_000

-- `RoundingPolicy.round_to_nearest_ten`, ten rupees being 1000 paise
unfoldable pub round_to_nearest_ten : ℕ → ℕ
unfolding quantize
round_to_nearest_ten value = quantize value 1000 * 1000
