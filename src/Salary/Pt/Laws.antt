-- ===== src/Salary/Pt/Laws.antt =====
-- What backend/app/engine/professional_tax/pt_calculator.py computes, on any slabs and on the seeded ones.
use Prim.Native.String.{String}
use smart_salary_india.Base.{ℕ, ◌≡◌, arith, sorted, leb, ltb, if◌then◌else◌, All, ◌≤◌}
use smart_salary_india.Money.{quantize}
use smart_salary_india.Salary.Pt.{
  Gender, all, male, female, PtCalculationInput, PtRuleSet, calculate_pt,
}
use smart_salary_india.Salary.Pt.Seeds.{
  PtRuleVersion, maharashtra, telangana, west_bengal, gujarat, tamil_nadu, seeded_pt, karnataka,
}

-- The rule set of a version.
abbrev pub rules_of : PtRuleVersion → PtRuleSet
rules_of v = record {
  state_code = v.state_code;
  state_name = v.state_code;
  rule_version_code = v.version_code;
  slabs = sorted (λ s. s.slab_order) v.slabs;
}

abbrev pub pt_input : String → ℕ → Gender → PtCalculationInput
pt_input state gross gender = record {
  state_code = state;
  monthly_gross_salary = gross;
  gender = gender;
}

-- The tax of a year is within the constitutional limit of 2,500 rupees.
abbrev pub Capped : ℕ → Gender → PtRuleVersion → Type 0
Capped gross gender v =
    (calculate_pt (pt_input v.state_code gross gender) (rules_of v)).annual_pt ≤ 250_000

karnataka-Capped : (gross : ℕ) (gender : Gender) → Capped gross gender karnataka
unfolding calculate_pt quantize
karnataka-Capped gross gender = ground arith

maharashtra-Capped : (gross : ℕ) (gender : Gender) → Capped gross gender maharashtra
unfolding calculate_pt quantize
maharashtra-Capped gross gender = ground arith

telangana-Capped : (gross : ℕ) (gender : Gender) → Capped gross gender telangana
unfolding calculate_pt quantize
telangana-Capped gross gender = ground arith

west_bengal-Capped : (gross : ℕ) (gender : Gender) → Capped gross gender west_bengal
unfolding calculate_pt quantize
west_bengal-Capped gross gender = ground arith

gujarat-Capped : (gross : ℕ) (gender : Gender) → Capped gross gender gujarat
unfolding calculate_pt quantize
gujarat-Capped gross gender = ground arith

tamil_nadu-Capped : (gross : ℕ) (gender : Gender) → Capped gross gender tamil_nadu
unfolding calculate_pt quantize
tamil_nadu-Capped gross gender = ground arith

-- Under every seeded state schedule, for any monthly salary and gender, the professional tax of a
-- year is at most 2,500 rupees.
pub seeded_pt-Capped : (gross : ℕ) (gender : Gender) → All (Capped gross gender) seeded_pt
seeded_pt-Capped gross gender = (
  karnataka-Capped gross gender,
  (
    maharashtra-Capped gross gender,
    (
      telangana-Capped gross gender,
      (
        west_bengal-Capped gross gender,
        (gujarat-Capped gross gender, (tamil_nadu-Capped gross gender, tt)),
      ),
    ),
  ),
)

-- In Maharashtra, with the seeded slabs and for any gender, the tax of a year is nothing up to 7,500
-- rupees a month, 2,100 rupees from 7,501 to 10,000 and 2,500 rupees from 10,001, and a salary
-- strictly between 7,500 and 7,501 or between 10,000 and 10,001 rupees pays nothing.
pub maharashtra-annual_pt :
    (gross : ℕ) (gender : Gender)
    → (calculate_pt (pt_input "MH" gross gender) (rules_of maharashtra)).annual_pt ≡ (
        if ltb gross 750_100
        then 0
        else if leb gross 1_000_000
        then 210_000
        else if ltb gross 1_000_100
        then 0
        else 250_000)
unfolding calculate_pt quantize
maharashtra-annual_pt gross all = ground arith
maharashtra-annual_pt gross male = ground arith
maharashtra-annual_pt gross female = ground arith
