-- ===== src/Money/Nearest.antt =====
-- What the roundings of backend/app/engine/common promise.
use smart_salary_india.Base.{ℕ, ◌+◌, ◌*◌, ◌%◌, ◌≤◌, ◌<◌, ◌≡◌, arith}
use smart_salary_india.Money.{quantize, rate_unit, round_to_nearest_ten}

-- A quantity already in paise is left alone.
pub quantize-whole : (n : ℕ) → quantize n 1 ≡ n
unfolding quantize
quantize-whole n = omega arith

pub quantize_rate_mono : (m n : ℕ) → m ≤ n → quantize m rate_unit ≤ quantize n rate_unit
unfolding quantize
quantize_rate_mono m n h = omega arith

pub quantize_rate-zero : quantize 0 rate_unit ≡ 0
unfolding quantize
quantize_rate-zero = omega arith

-- A rate of at most 100% does not raise the amount.
pub quantize_rate-le : (n rate : ℕ) → rate ≤ rate_unit → quantize (n * rate) rate_unit ≤ n
unfolding quantize
quantize_rate-le n rate h = grind arith

-- The rounding to ten rupees is a multiple of ten rupees, within five rupees of the value, the
-- value half way goes up, and rounding again changes nothing.
pub round_to_nearest_ten_nearest :
    (value : ℕ)
    → (round_to_nearest_ten value % 1000 ≡ 0)
      × (round_to_nearest_ten value ≤ value + 500)
      × (value < round_to_nearest_ten value + 500)
      × (round_to_nearest_ten (round_to_nearest_ten value) ≡ round_to_nearest_ten value)
unfolding round_to_nearest_ten
round_to_nearest_ten_nearest value = omega arith

pub round_to_nearest_ten_mono : (m n : ℕ) → m ≤ n → round_to_nearest_ten m ≤ round_to_nearest_ten n
unfolding round_to_nearest_ten
round_to_nearest_ten_mono m n h = omega arith
