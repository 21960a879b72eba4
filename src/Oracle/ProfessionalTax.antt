-- ===== src/Oracle/ProfessionalTax.antt =====
-- The professional tax of backend/app/engine/oracle/independent_oracle.py, and its agreement with
-- backend/app/engine/professional_tax/pt_calculator.py under the seeded slabs. A monthly gross
-- salary is given in twelfths of a paisa, so that a twelfth of an annual one is exact, and a state by
-- its code in upper case.
use Prim.Native.String.{String}
use text.Mathlib.Text.{◌==◌ as str_eq}
use smart_salary_india.Base.{
  ℕ, ◌*◌, ◌≡◌, Bool, true, false, [], ◌∷◌, leb, ltb, if◌then◌else◌, arith, All,
}
use smart_salary_india.Money.{quantize}
use smart_salary_india.Salary.Pt.{Gender, calculate_pt}
use smart_salary_india.Salary.Pt.Seeds.{
  PtRuleVersion, karnataka, maharashtra, telangana, west_bengal,
}
use smart_salary_india.Salary.Pt.Laws.{rules_of, pt_input}

-- A monthly amount of rupees in twelfths of a paisa.
abbrev monthly_rupees : ℕ → ℕ
monthly_rupees n = n * 1_200

-- `calculate_pt`
unfoldable pub oracle_pt : String → ℕ → Bool → ℕ
oracle_pt state monthly_gross is_february =
    if str_eq state "KA"
    then if leb (monthly_rupees 15_000) monthly_gross then 20_000 else 0
    else if str_eq state "MH"
    then if ltb (monthly_rupees 10_000) monthly_gross
      then if is_february then 30_000 else 20_000
      else if ltb (monthly_rupees 7_500) monthly_gross
      then 17_500
      else 0
    else if str_eq state "TS"
    then if ltb (monthly_rupees 20_000) monthly_gross
      then 20_000
      else if ltb (monthly_rupees 15_000) monthly_gross
      then 15_000
      else 0
    else if str_eq state "WB"
    then if ltb (monthly_rupees 40_000) monthly_gross
      then 20_000
      else if ltb (monthly_rupees 25_000) monthly_gross
      then 15_000
      else if ltb (monthly_rupees 15_000) monthly_gross
      then 13_000
      else if ltb (monthly_rupees 10_000) monthly_gross
      then 11_000
      else 0
    else if str_eq state "GJ"
    then if ltb (monthly_rupees 12_000) monthly_gross
      then 20_000
      else if ltb (monthly_rupees 9_000) monthly_gross
      then 15_000
      else if ltb (monthly_rupees 6_000) monthly_gross
      then 8_000
      else 0
    else if str_eq state "TN"
    then if leb (monthly_rupees 50_000) monthly_gross
      then 20_833
      else if leb (monthly_rupees 25_000) monthly_gross
      then 10_417
      else 0
    else 0

-- `calculate_annual_pt`, of an annual gross salary in paise.
unfoldable pub oracle_annual_pt : String → ℕ → ℕ
oracle_annual_pt state annual_gross =
    if str_eq state "KA"
    then if leb (monthly_rupees 15_000) annual_gross then 240_000 else 0
    else if str_eq state "MH"
    then if ltb (monthly_rupees 10_000) annual_gross
      then 250_000
      else if ltb (monthly_rupees 7_500) annual_gross
      then 210_000
      else 0
    else if str_eq state "TS"
    then if ltb (monthly_rupees 20_000) annual_gross
      then 240_000
      else if ltb (monthly_rupees 15_000) annual_gross
      then 180_000
      else 0
    else if str_eq state "WB"
    then oracle_pt "WB" annual_gross false * 12
    else if str_eq state "GJ"
    then oracle_pt "GJ" annual_gross false * 12
    else if str_eq state "TN"
    then if leb 60_000_000 annual_gross then 250_000 else 125_000
    else 0

-- The engine and the oracle take the same each month, in February and in the year from a monthly
-- salary of whole rupees.
abbrev pub AgreesPt : ℕ → Gender → PtRuleVersion → Type 0
AgreesPt rupees gender v =
    let r = calculate_pt (pt_input v.state_code (rupees * 100) gender) (rules_of v) in
    (r.monthly_pt ≡ oracle_pt v.state_code (rupees * 1_200) false)
    × (r.february_pt ≡ oracle_pt v.state_code (rupees * 1_200) true)
    × (r.annual_pt ≡ oracle_annual_pt v.state_code (rupees * 1_200))

karnataka-AgreesPt : (rupees : ℕ) (gender : Gender) → AgreesPt rupees gender karnataka
unfolding calculate_pt quantize oracle_pt oracle_annual_pt
karnataka-AgreesPt rupees gender = (ground arith, ground arith, ground arith)

maharashtra-AgreesPt : (rupees : ℕ) (gender : Gender) → AgreesPt rupees gender maharashtra
unfolding calculate_pt quantize oracle_pt oracle_annual_pt
maharashtra-AgreesPt rupees gender = (ground arith, ground arith, ground arith)

telangana-AgreesPt : (rupees : ℕ) (gender : Gender) → AgreesPt rupees gender telangana
unfolding calculate_pt quantize oracle_pt oracle_annual_pt
telangana-AgreesPt rupees gender = (ground arith, ground arith, ground arith)

west_bengal-AgreesPt : (rupees : ℕ) (gender : Gender) → AgreesPt rupees gender west_bengal
unfolding calculate_pt quantize oracle_pt oracle_annual_pt
west_bengal-AgreesPt rupees gender = (ground arith, ground arith, ground arith)

-- For Karnataka, Maharashtra, Telangana and West Bengal, any gender and any monthly salary of whole
-- rupees the engine, under the seeded slabs, and the oracle take the same professional tax in a
-- month, in February and in a year.
pub agrees_pt :
    (rupees : ℕ) (gender : Gender)
    → All (AgreesPt rupees gender) (karnataka ∷ maharashtra ∷ telangana ∷ west_bengal ∷ [])
agrees_pt rupees gender = (
  karnataka-AgreesPt rupees gender,
  (
    maharashtra-AgreesPt rupees gender,
    (telangana-AgreesPt rupees gender, (west_bengal-AgreesPt rupees gender, tt)),
  ),
)
