-- ===== src/Salary/Projection/Laws.antt =====
-- What the twelve paychecks of backend/app/services/salary_service.py add up to.
use smart_salary_india.Base.{ℕ, ◌+◌, ◌*◌, ◌≡◌, List, [], ◌∷◌, leb, if◌then◌else◌, All, arith}
use smart_salary_india.Money.{quantize}
use smart_salary_india.Salary.Service.{VerifiedCalculation}
use smart_salary_india.Salary.Pt.{Gender, calculate_pt}
use smart_salary_india.Salary.Pt.Seeds.{
  PtRuleVersion, karnataka, maharashtra, telangana, west_bengal, gujarat,
}
use smart_salary_india.Salary.Pt.Laws.{rules_of, pt_input}
use smart_salary_india.Salary.Projection.{
  MonthlyPaycheckRow, pt_amount, paycheck_row, generate_monthly_schedule,
}

abbrev pub total : (MonthlyPaycheckRow → ℕ) → List MonthlyPaycheckRow → ℕ
total f [] = 0
total f (r ∷ rows) = f r + total f rows

-- The calculation with the professional tax of a version.
abbrev pub with_pt : VerifiedCalculation → PtRuleVersion → ℕ → Gender → VerifiedCalculation
with_pt c v gross gender = record c {
  pt = calculate_pt (pt_input v.state_code gross gender) (rules_of v);
}

-- The professional tax of the twelve paychecks is that of the year.
abbrev pub SumsToAnnual : ℕ → VerifiedCalculation → ℕ → Gender → PtRuleVersion → Type 0
SumsToAnnual start_year c gross gender v =
    total (λ r. r.professional_tax)
      (generate_monthly_schedule start_year v.state_code (with_pt c v gross gender))
    ≡ (calculate_pt (pt_input v.state_code gross gender) (rules_of v)).annual_pt

karnataka-SumsToAnnual :
    (start_year : ℕ) (c : VerifiedCalculation) (gross : ℕ) (gender : Gender)
    → SumsToAnnual start_year c gross gender karnataka
unfolding generate_monthly_schedule paycheck_row pt_amount calculate_pt quantize
karnataka-SumsToAnnual start_year c gross gender = ground arith

telangana-SumsToAnnual :
    (start_year : ℕ) (c : VerifiedCalculation) (gross : ℕ) (gender : Gender)
    → SumsToAnnual start_year c gross gender telangana
unfolding generate_monthly_schedule paycheck_row pt_amount calculate_pt quantize
telangana-SumsToAnnual start_year c gross gender = ground arith

west_bengal-SumsToAnnual :
    (start_year : ℕ) (c : VerifiedCalculation) (gross : ℕ) (gender : Gender)
    → SumsToAnnual start_year c gross gender west_bengal
unfolding generate_monthly_schedule paycheck_row pt_amount calculate_pt quantize
west_bengal-SumsToAnnual start_year c gross gender = ground arith

gujarat-SumsToAnnual :
    (start_year : ℕ) (c : VerifiedCalculation) (gross : ℕ) (gender : Gender)
    → SumsToAnnual start_year c gross gender gujarat
unfolding generate_monthly_schedule paycheck_row pt_amount calculate_pt quantize
gujarat-SumsToAnnual start_year c gross gender = ground arith

-- In Maharashtra the paychecks take the year's tax from a salary of 10,001 rupees a month on, and
-- February's 300 rupees more than eleven months' tax from every salary.
maharashtra-total :
    (start_year : ℕ) (c : VerifiedCalculation) (gross : ℕ) (gender : Gender)
    → total
        (λ r. r.professional_tax)
        (generate_monthly_schedule start_year "MH" (with_pt c maharashtra gross gender))
      ≡ (if leb 1_000_100 gross
          then (calculate_pt (pt_input "MH" gross gender) (rules_of maharashtra)).annual_pt
          else 11 * (calculate_pt (pt_input "MH" gross gender) (rules_of maharashtra)).monthly_pt
            + 30_000)
unfolding generate_monthly_schedule paycheck_row pt_amount calculate_pt quantize
maharashtra-total start_year c gross gender = ground arith

-- Under the seeded slabs of Karnataka, Telangana, West Bengal and Gujarat, for any salary and
-- gender, the professional tax of the twelve paychecks adds up to that of the year. In Maharashtra
-- it does from a monthly salary of 10,001 rupees on, and below that the paychecks take eleven
-- months' tax and 300 rupees.
pub generate_monthly_schedule-pt :
    (start_year : ℕ) (c : VerifiedCalculation) (gross : ℕ) (gender : Gender)
    → All
        (SumsToAnnual start_year c gross gender)
        (karnataka ∷ telangana ∷ west_bengal ∷ gujarat ∷ [])
      × (total
            (λ r. r.professional_tax)
            (generate_monthly_schedule start_year "MH" (with_pt c maharashtra gross gender))
          ≡ (if leb 1_000_100 gross
              then (calculate_pt (pt_input "MH" gross gender) (rules_of maharashtra)).annual_pt
              else 11
                  * (calculate_pt (pt_input "MH" gross gender) (rules_of maharashtra)).monthly_pt
                + 30_000))
generate_monthly_schedule-pt start_year c gross gender = (
  (
    karnataka-SumsToAnnual start_year c gross gender,
    (
      telangana-SumsToAnnual start_year c gross gender,
      (
        west_bengal-SumsToAnnual start_year c gross gender,
        (gujarat-SumsToAnnual start_year c gross gender, tt),
      ),
    ),
  ),
  maharashtra-total start_year c gross gender,
)
