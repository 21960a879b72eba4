-- ===== src/Oracle/Tests.antt =====
-- Runs and examples of the engine against the oracle.
use smart_salary_india.Base.{◌≡◌, refl, some, arith, All, ◌*◌, [], ◌∷◌, false}
use smart_salary_india.Money.{quantize}
use smart_salary_india.Tax.Rules.{new, old}
use smart_salary_india.Oracle.{
  paise, calculate_fy2025_26_new, calculate_fy2024_25_new, calculate_fy2025_26_old, total_tax,
  tax_after_rebate, slab_tax_new, compute_surcharge, quantize_inr, round_total, bracket, allowed,
  prev_rate,
}
use smart_salary_india.Salary.Pt.{female, calculate_pt}
use smart_salary_india.Salary.Pt.Seeds.{karnataka, maharashtra, telangana, west_bengal, gujarat}
use smart_salary_india.Salary.Pt.Laws.{rules_of, pt_input}
use smart_salary_india.Oracle.ProfessionalTax.{oracle_pt, oracle_annual_pt, AgreesPt, agrees_pt}
use smart_salary_india.Oracle.Agreement.{engine_tax, agrees_new, agrees_new_2024, agrees_old}

calculate_fy2025_26_new-run :
    (calculate_fy2025_26_new (paise 1_275_000) ≡ 0)
    × (calculate_fy2025_26_new (paise 1_500_000) ≡ paise 97_500)
unfolding calculate_fy2025_26_new total_tax tax_after_rebate slab_tax_new compute_surcharge
    quantize_inr round_total quantize bracket allowed prev_rate
calculate_fy2025_26_new-run = (refl, refl)

agrees_new_example :
    (engine_tax "2025-26" new (paise 5_100_000) 0 0
      ≡ some (calculate_fy2025_26_new (paise 5_100_000)))
    × (engine_tax "2026-27" new (paise 5_100_000) 0 0
        ≡ some (calculate_fy2025_26_new (paise 5_100_000)))
agrees_new_example = agrees_new 5_100_000 0 0

agrees_new_2024_example :
    engine_tax "2024-25" new (paise 785_000) 0 0 ≡ some (calculate_fy2024_25_new (paise 785_000))
agrees_new_2024_example = agrees_new_2024 785_000 0 0

agrees_old_example :
    engine_tax "2025-26" old (paise 1_200_000) (paise 150_000) (paise 25_000)
    ≡ some (calculate_fy2025_26_old (paise 1_200_000) (paise 150_000) (paise 25_000))
agrees_old_example = agrees_old 1_200_000 150_000 25_000 (omega arith)

agrees_pt_example :
    All (AgreesPt 30_000 female) (karnataka ∷ maharashtra ∷ telangana ∷ west_bengal ∷ [])
agrees_pt_example = agrees_pt 30_000 female

-- In Gujarat the oracle takes 150 rupees from 10,000 rupees a month, and the seeded slabs nothing.
gujarat_differs :
    (oracle_pt "GJ" (10_000 * 1_200) false ≡ 15_000)
    × ((calculate_pt (pt_input "GJ" 1_000_000 female) (rules_of gujarat)).monthly_pt ≡ 0)
unfolding oracle_pt calculate_pt
gujarat_differs = (refl, refl)

-- In Tamil Nadu the oracle's year and month contradict each other for 10,000 rupees a month.
tamil_nadu_differs :
    (oracle_annual_pt "TN" (10_000 * 1_200) ≡ 125_000) × (oracle_pt "TN" (10_000 * 1_200) false ≡ 0)
unfolding oracle_pt oracle_annual_pt
tamil_nadu_differs = (refl, refl)
